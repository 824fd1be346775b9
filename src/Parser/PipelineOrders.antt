-- ===== src/Parser/PipelineOrders.antt =====
-- The commands on pipelines and debug settings: how a client writes each, and what it asks for.
use mathlib.Core.List.{append_assoc, append-nil}
use gstd_1_x.Base.{Text, codes, ◌≡◌, refl, [], ◌∷◌, ◌++◌, space, arith}
use gstd_1_x.GLib.{GLib}
use gstd_1_x.Object.{ObjectTree}
use gstd_1_x.Parser.Words.{str}
use gstd_1_x.Parser.Tokens.{two_tokens}
use gstd_1_x.Parser.Pipelines.{
  pipeline_create, pipeline_delete, pipeline_play, pipeline_pause, pipeline_stop, pipeline_graph,
  pipeline_verbose, list_pipelines, debug_enable, debug_threshold, debug_color, debug_reset,
}
use gstd_1_x.Parser.Requests.{
  Request, create_at, read_at, update_at, delete_at, IsName, literal, run, raw_cmd-create,
  raw_cmd-read, raw_cmd-update, raw_cmd-delete, parse_cmd-word, parse_cmd-bare,
}
use gstd_1_x.Parser.Dispatch.{parse_cmd, cmds}

-- p is the name of a pipeline, and v a value. The pipelines are listed by the bare word, or with words
-- behind it, which are dropped.
pub data PipelineOrder : Type 0 where
  create_pipeline : (p d : Text) → PipelineOrder
  delete_pipeline : (p : Text) → PipelineOrder
  play : (p : Text) → PipelineOrder
  pause : (p : Text) → PipelineOrder
  stop : (p : Text) → PipelineOrder
  get_graph : (p : Text) → PipelineOrder
  set_verbose : (p v : Text) → PipelineOrder
  list_bare : PipelineOrder
  list_all : (x : Text) → PipelineOrder
  enable_debug : (v : Text) → PipelineOrder
  set_threshold : (v : Text) → PipelineOrder
  color_debug : (v : Text) → PipelineOrder
  reset_debug : (v : Text) → PipelineOrder

-- The text of the command.
abbrev pub line : PipelineOrder → Text
line (create_pipeline p d) = codes "pipeline_create" ++ space ∷ (p ++ space ∷ d)
line (delete_pipeline p) = codes "pipeline_delete" ++ space ∷ p
line (play p) = codes "pipeline_play" ++ space ∷ p
line (pause p) = codes "pipeline_pause" ++ space ∷ p
line (stop p) = codes "pipeline_stop" ++ space ∷ p
line (get_graph p) = codes "pipeline_get_graph" ++ space ∷ p
line (set_verbose p v) = codes "pipeline_verbose" ++ space ∷ (p ++ space ∷ v)
line list_bare = codes "list_pipelines"
line (list_all x) = codes "list_pipelines" ++ space ∷ x
line (enable_debug v) = codes "debug_enable" ++ space ∷ v
line (set_threshold v) = codes "debug_threshold" ++ space ∷ v
line (color_debug v) = codes "debug_color" ++ space ∷ v
line (reset_debug v) = codes "debug_reset" ++ space ∷ v

-- The names are names.
abbrev pub IsValid : PipelineOrder → Type 0
IsValid (create_pipeline p d) = IsName p
IsValid (delete_pipeline p) = IsName p
IsValid (play p) = IsName p
IsValid (pause p) = IsName p
IsValid (stop p) = IsName p
IsValid (get_graph p) = IsName p
IsValid (set_verbose p v) = IsName p
IsValid list_bare = Unit
IsValid (list_all x) = Unit
IsValid (enable_debug v) = Unit
IsValid (set_threshold v) = Unit
IsValid (color_debug v) = Unit
IsValid (reset_debug v) = Unit

-- The resource, the verb and the argument.
abbrev pub request : PipelineOrder → Request
request (create_pipeline p d) = create_at (codes "pipelines" ∷ []) (str (p ++ space ∷ d))
request (delete_pipeline p) = delete_at (codes "pipelines" ∷ []) (str p)
request (play p) = update_at (codes "pipelines" ∷ p ∷ codes "state" ∷ []) (str (codes "playing"))
request (pause p) = update_at (codes "pipelines" ∷ p ∷ codes "state" ∷ []) (str (codes "paused"))
request (stop p) = update_at (codes "pipelines" ∷ p ∷ codes "state" ∷ []) (str (codes "null"))
request (get_graph p) = read_at (codes "pipelines" ∷ p ∷ codes "graph" ∷ [])
request (set_verbose p v) = update_at (codes "pipelines" ∷ p ∷ codes "verbose" ∷ []) (str v)
request list_bare = read_at (codes "pipelines" ∷ [])
request (list_all x) = read_at (codes "pipelines" ∷ [])
request (enable_debug v) = update_at (codes "debug" ∷ codes "enable" ∷ []) (str v)
request (set_threshold v) = update_at (codes "debug" ∷ codes "threshold" ∷ []) (str v)
request (color_debug v) = update_at (codes "debug" ∷ codes "color" ∷ []) (str v)
request (reset_debug v) = update_at (codes "debug" ∷ codes "reset" ∷ []) (str v)

pub parse_cmd-pipeline :
    (g : GLib) (t : ObjectTree) (o : PipelineOrder)
    → IsValid o
    → parse_cmd g t (line o) ≡ run g t (request o)
unfolding cmds pipeline_create pipeline_delete pipeline_play pipeline_pause pipeline_stop
    pipeline_graph pipeline_verbose list_pipelines debug_enable debug_threshold debug_color
    debug_reset
parse_cmd-pipeline g t (create_pipeline p d) h =
    rw (parse_cmd-word g t (codes "pipeline_create") (p ++ space ∷ d) (omega arith))
      (raw_cmd-create g t (codes "pipelines") [] (p ++ space ∷ d) (refl) (literal _ refl) tt)
parse_cmd-pipeline g t (delete_pipeline p) h =
    rw (parse_cmd-word g t (codes "pipeline_delete") (p) (omega arith))
      (raw_cmd-delete g t (codes "pipelines") [] (p) (refl) (literal _ refl) tt)
parse_cmd-pipeline g t (play p) h =
    rw (parse_cmd-word g t (codes "pipeline_play") (p) (omega arith)) (
      raw_cmd-update g t (codes "pipelines") (p ∷ codes "state" ∷ []) (codes "playing")
        (simp append_assoc) (literal _ refl) (h, (literal _ refl, tt)))
parse_cmd-pipeline g t (pause p) h =
    rw (parse_cmd-word g t (codes "pipeline_pause") (p) (omega arith)) (
      raw_cmd-update g t (codes "pipelines") (p ∷ codes "state" ∷ []) (codes "paused")
        (simp append_assoc) (literal _ refl) (h, (literal _ refl, tt)))
parse_cmd-pipeline g t (stop p) h =
    rw (parse_cmd-word g t (codes "pipeline_stop") (p) (omega arith)) (
      raw_cmd-update g t (codes "pipelines") (p ∷ codes "state" ∷ []) (codes "null")
        (simp append_assoc) (literal _ refl) (h, (literal _ refl, tt)))
parse_cmd-pipeline g t (get_graph p) h =
    rw (parse_cmd-word g t (codes "pipeline_get_graph") (p) (omega arith)) (
      raw_cmd-read g t (codes "pipelines") (p ∷ codes "graph" ∷ [])
        (simp (append_assoc, append-nil)) (literal _ refl) (h, (literal _ refl, tt)))
parse_cmd-pipeline g t (set_verbose p v) h =
    rw
      (
        parse_cmd-word g t (codes "pipeline_verbose") (p ++ space ∷ v) (omega arith),
        two_tokens g p v h.no_space,
      )
      (raw_cmd-update g t (codes "pipelines") (p ∷ codes "verbose" ∷ []) (v) (simp append_assoc)
        (literal _ refl) (h, (literal _ refl, tt)))
parse_cmd-pipeline g t list_bare h =
    rw (parse_cmd-bare g t (codes "list_pipelines") (λ e. cc) (omega arith))
      (raw_cmd-read g t (codes "pipelines") [] (refl) (literal _ refl) tt)
parse_cmd-pipeline g t (list_all x) h =
    rw (parse_cmd-word g t (codes "list_pipelines") (x) (omega arith))
      (raw_cmd-read g t (codes "pipelines") [] (refl) (literal _ refl) tt)
parse_cmd-pipeline g t (enable_debug v) h =
    rw (parse_cmd-word g t (codes "debug_enable") (v) (omega arith)) (
      raw_cmd-update g t (codes "debug") (codes "enable" ∷ []) (v) (refl) (literal _ refl)
        (literal _ refl, tt))
parse_cmd-pipeline g t (set_threshold v) h =
    rw (parse_cmd-word g t (codes "debug_threshold") (v) (omega arith)) (
      raw_cmd-update g t (codes "debug") (codes "threshold" ∷ []) (v) (refl) (literal _ refl)
        (literal _ refl, tt))
parse_cmd-pipeline g t (color_debug v) h =
    rw (parse_cmd-word g t (codes "debug_color") (v) (omega arith)) (
      raw_cmd-update g t (codes "debug") (codes "color" ∷ []) (v) (refl) (literal _ refl)
        (literal _ refl, tt))
parse_cmd-pipeline g t (reset_debug v) h =
    rw (parse_cmd-word g t (codes "debug_reset") (v) (omega arith)) (
      raw_cmd-update g t (codes "debug") (codes "reset" ∷ []) (v) (refl) (literal _ refl)
        (literal _ refl, tt))
