-- ===== src/Client/Orders.antt =====
-- The requests of the client library: the line that each function sends, and what the server makes
-- of it.
use gstd_1_x.Base.{
  ℕ, ℤ, pos, negsuc, zero, suc, false, Text, codes, ◌≡◌, refl, [], ◌∷◌, ◌++◌, append_assoc, some,
  arith,
}
use gstd_1_x.GLib.{GLib}
use gstd_1_x.Object.{ObjectTree}
use gstd_1_x.Client.{Status, Call, Network}
use gstd_1_x.Client.Json.{Jansson}
use gstd_1_x.Client.Commands.{Client, words, cmd_send, cmd_create, cmd_update, cmd_delete}
use gstd_1_x.Client.Pipelines.{
  pipeline_create, pipeline_delete, pipeline_play, pipeline_pause, pipeline_stop, cmd_change_state,
  pipeline_verbose, bool_text, pipeline_flush_start, pipeline_flush_stop, flush_text, pipeline_seek,
  pipeline_inject_eos,
}
use gstd_1_x.Client.Elements.{pipeline_emit_action}
use gstd_1_x.Parser.Words.{str, of_pipeline, of_element}
use gstd_1_x.Parser.Requests.{
  Request, create_at, update_at, delete_at, IsName, literal, run, raw_cmd-create, raw_cmd-update,
  raw_cmd-delete, parse_cmd-word,
}
use gstd_1_x.Parser.Dispatch.{parse_cmd, cmds}
use gstd_1_x.Base.{is_zero}

-- Eleven functions of the client library. p is the name of a pipeline, e of one of its elements.
pub data ClientOrder : Type 0 where
  create_pipeline : (p d : Text) → ClientOrder
  delete_pipeline : (p : Text) → ClientOrder
  play : (p : Text) → ClientOrder
  pause : (p : Text) → ClientOrder
  stop : (p : Text) → ClientOrder
  verbose : (p : Text) (value : ℤ) → ClientOrder
  flush_start : (p : Text) → ClientOrder
  flush_stop : (p : Text) (reset : ℤ) → ClientOrder
  seek : (p numbers : Text) → ClientOrder
  inject_eos : (p : Text) → ClientOrder
  emit_action : (p e action : Text) → ClientOrder

-- What is sent.
abbrev pub line : ClientOrder → Text
line (create_pipeline p d) = words (codes "create") (words (codes "/pipelines") (words p d))
line (delete_pipeline p) = words (codes "delete") (words (codes "/pipelines") p)
line (play p) = words (codes "update") (words (of_pipeline p (codes "/state")) (codes "playing"))
line (pause p) = words (codes "update") (words (of_pipeline p (codes "/state")) (codes "paused"))
line (stop p) = words (codes "update") (words (of_pipeline p (codes "/state")) (codes "null"))
line (verbose p v) = words (codes "update") (words (of_pipeline p (codes "/verbose")) (bool_text v))
line (flush_start p) =
    words (codes "create") (words (of_pipeline p (codes "/event")) (codes "flush_start"))
line (flush_stop p r) =
    words (codes "create") (words (of_pipeline p (codes "/event")) (flush_text (is_zero r)))
line (seek p n) =
    words (codes "create") (words (of_pipeline p (codes "/event")) (codes "seek " ++ n))
line (inject_eos p) = words (codes "create") (words (of_pipeline p (codes "/event")) (codes "eos"))
line (emit_action p e a) =
    words (codes "create") (words (of_element p e (codes "/actions/" ++ a)) a)

-- The names are names.
abbrev pub IsValid : ClientOrder → Type 0
IsValid (create_pipeline p d) = Unit
IsValid (delete_pipeline p) = Unit
IsValid (play p) = IsName p
IsValid (pause p) = IsName p
IsValid (stop p) = IsName p
IsValid (verbose p v) = IsName p
IsValid (flush_start p) = IsName p
IsValid (flush_stop p r) = IsName p
IsValid (seek p n) = IsName p
IsValid (inject_eos p) = IsName p
IsValid (emit_action p e a) = IsName p × IsName e × IsName a

-- Any number but zero is true.
abbrev truth : ℤ → Text
truth (pos zero) = codes "false"
truth (pos (suc n)) = codes "true"
truth (negsuc n) = codes "true"

abbrev flush_stop_description : ℤ → Text
flush_stop_description (pos zero) = codes "flush_stop false"
flush_stop_description (pos (suc n)) = codes "flush_stop true"
flush_stop_description (negsuc n) = codes "flush_stop true"

positive : (n : ℕ) → is_zero (pos (suc n)) ≡ false
positive n = ground arith

truth_lem : (v : ℤ) → bool_text v ≡ truth v
truth_lem (pos zero) = refl
truth_lem (pos (suc n)) = rw (positive n) refl
truth_lem (negsuc n) = refl

flush_stop_description_lem : (v : ℤ) → flush_text (is_zero v) ≡ flush_stop_description v
flush_stop_description_lem (pos zero) = refl
flush_stop_description_lem (pos (suc n)) = rw (positive n) refl
flush_stop_description_lem (negsuc n) = refl

-- The resource, the verb and the argument.
abbrev pub request : ClientOrder → Request
request (create_pipeline p d) = create_at (codes "pipelines" ∷ []) (str (words p d))
request (delete_pipeline p) = delete_at (codes "pipelines" ∷ []) (str p)
request (play p) = update_at (codes "pipelines" ∷ p ∷ codes "state" ∷ []) (str (codes "playing"))
request (pause p) = update_at (codes "pipelines" ∷ p ∷ codes "state" ∷ []) (str (codes "paused"))
request (stop p) = update_at (codes "pipelines" ∷ p ∷ codes "state" ∷ []) (str (codes "null"))
request (verbose p v) = update_at (codes "pipelines" ∷ p ∷ codes "verbose" ∷ []) (str (truth v))
request (flush_start p) =
    create_at (codes "pipelines" ∷ p ∷ codes "event" ∷ []) (str (codes "flush_start"))
request (flush_stop p r) =
    create_at (codes "pipelines" ∷ p ∷ codes "event" ∷ []) (str (flush_stop_description r))
request (seek p n) =
    create_at (codes "pipelines" ∷ p ∷ codes "event" ∷ []) (str (codes "seek " ++ n))
request (inject_eos p) = create_at (codes "pipelines" ∷ p ∷ codes "event" ∷ []) (str (codes "eos"))
request (emit_action p e a) =
    create_at (codes "pipelines" ∷ p ∷ codes "elements" ∷ e ∷ codes "actions" ∷ a ∷ []) (str a)

module _ (g : GLib) {W : Type 0} (net : Network W) (j : Jansson) (client : Client) where
  -- The function of the library.
  abbrev pub call : ClientOrder → Call W Status
  call (create_pipeline p d) = pipeline_create net j client (some p) (some d)
  call (delete_pipeline p) = pipeline_delete net j client (some p)
  call (play p) = pipeline_play net j client (some p)
  call (pause p) = pipeline_pause net j client (some p)
  call (stop p) = pipeline_stop net j client (some p)
  call (verbose p v) = pipeline_verbose net j client (some p) v
  call (flush_start p) = pipeline_flush_start net j client (some p)
  call (flush_stop p r) = pipeline_flush_stop net j client (some p) r
  call (seek p n) = pipeline_seek net j client (some p) n
  call (inject_eos p) = pipeline_inject_eos net j client g (some p)
  call (emit_action p e a) = pipeline_emit_action net j client g (some p) (some e) (some a)

  pub call-line : (o : ClientOrder) → call o ≡ cmd_send net j client (line o)
  unfolding cmd_create cmd_update cmd_delete cmd_change_state pipeline_create pipeline_delete
      pipeline_play pipeline_pause pipeline_stop pipeline_verbose pipeline_flush_start
      pipeline_flush_stop pipeline_seek pipeline_inject_eos pipeline_emit_action
  call-line (create_pipeline p d) = refl
  call-line (delete_pipeline p) = refl
  call-line (play p) = refl
  call-line (pause p) = refl
  call-line (stop p) = refl
  call-line (verbose p v) = refl
  call-line (flush_start p) = refl
  call-line (flush_stop p r) = refl
  call-line (seek p n) = refl
  call-line (inject_eos p) = refl
  call-line (emit_action p e a) = refl

module _ (g : GLib) (t : ObjectTree) where
  create_event :
      (p what : Text)
      → IsName p
      → parse_cmd g t (words (codes "create") (words (of_pipeline p (codes "/event")) what))
        ≡ run g t (create_at (codes "pipelines" ∷ p ∷ codes "event" ∷ []) (str what))
  unfolding cmds
  create_event p what h =
      rw
        (parse_cmd-word g t (codes "create") (words (of_pipeline p (codes "/event")) what)
          (omega arith))
        (raw_cmd-create g t (codes "pipelines") (p ∷ codes "event" ∷ []) what (simp append_assoc)
          (literal _ refl) (h, (literal _ refl, tt)))

  update_property :
      (p k what : Text)
      → IsName p
      → IsName k
      → parse_cmd g t (words (codes "update") (words (of_pipeline p (codes "/" ++ k)) what))
        ≡ run g t (update_at (codes "pipelines" ∷ p ∷ k ∷ []) (str what))
  unfolding cmds
  update_property p k what h hk =
      rw
        (parse_cmd-word g t (codes "update") (words (of_pipeline p (codes "/" ++ k)) what)
          (omega arith))
        (raw_cmd-update g t (codes "pipelines") (p ∷ k ∷ []) what (simp append_assoc)
          (literal _ refl) (h, (hk, tt)))

  -- The server takes the line of each of the functions of ClientOrder for the request that the function
  -- stands for: the names, which are not empty and have no slash and no space, lead from the session to a resource, on which the verb is performed.
  pub parse_cmd-client :
      (o : ClientOrder) → IsValid o → parse_cmd g t (line o) ≡ run g t (request o)
  unfolding cmds
  parse_cmd-client (create_pipeline p d) h =
      rw
        (parse_cmd-word g t (codes "create") (words (codes "/pipelines") (words p d)) (omega arith))
        (raw_cmd-create g t (codes "pipelines") [] (words p d) refl (literal _ refl) tt)
  parse_cmd-client (delete_pipeline p) h =
      rw (parse_cmd-word g t (codes "delete") (words (codes "/pipelines") p) (omega arith))
        (raw_cmd-delete g t (codes "pipelines") [] p refl (literal _ refl) tt)
  parse_cmd-client (play p) h =
      update_property p (codes "state") (codes "playing") h (literal _ refl)
  parse_cmd-client (pause p) h =
      update_property p (codes "state") (codes "paused") h (literal _ refl)
  parse_cmd-client (stop p) h = update_property p (codes "state") (codes "null") h (literal _ refl)
  parse_cmd-client (verbose p v) h =
      rw (truth_lem v) (update_property p (codes "verbose") (truth v) h (literal _ refl))
  parse_cmd-client (flush_start p) h = create_event p (codes "flush_start") h
  parse_cmd-client (flush_stop p r) h =
      rw (flush_stop_description_lem r) (create_event p (flush_stop_description r) h)
  parse_cmd-client (seek p n) h = create_event p (codes "seek " ++ n) h
  parse_cmd-client (inject_eos p) h = create_event p (codes "eos") h
  parse_cmd-client (emit_action p e a) h =
      rw
        (parse_cmd-word g t (codes "create") (words (of_element p e (codes "/actions/" ++ a)) a)
          (omega arith))
        (raw_cmd-create g t (codes "pipelines")
          (p ∷ codes "elements" ∷ e ∷ codes "actions" ∷ a ∷ []) a (simp append_assoc)
          (literal _ refl) (h.0, (literal _ refl, (h.1, (literal _ refl, (h.2, tt))))))
