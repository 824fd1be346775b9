-- ===== src/Server/LastReference.antt =====
-- The last client of a pipeline to go.
use mathlib.Core.Path.{subst}
use gstd_1_x.Base.{◌≡◌, ◌≢◌, ◌⊎◌, refl, Text, codes, ◌∷◌, ◌++◌, none, some, space, arith, inl, inr}
use gstd_1_x.ReturnCode.{ReturnCode, eok}
use gstd_1_x.Action.{Exit, done, check}
use gstd_1_x.GLib.{GLib}
use gstd_1_x.Gst.{Gst}
use gstd_1_x.NodeList
use gstd_1_x.NodeList.{NodeList, find_child}
use gstd_1_x.NodeList.Laws.{IsValid}
use gstd_1_x.NodeList.Operations.{Removes}
use gstd_1_x.Object.{object_read, object_delete}
use gstd_1_x.Session.{walk, child_of}
use gstd_1_x.Parser.Raw
use gstd_1_x.Parser.Requests.{IsName, run, parse_cmd-word}
use gstd_1_x.Parser.PipelineOrders
use gstd_1_x.Parser.PipelineOrders.{parse_cmd-pipeline}
use gstd_1_x.Parser.Refs.{delete_or_drop, pipeline_delete_ref}
use gstd_1_x.Parser.Dispatch.{cmds, parse_cmd}
use gstd_1_x.Pipeline.{Pipeline, deleter}
use gstd_1_x.Pipeline.Listed.{Stops, Deleted, delete_pipeline}
use gstd_1_x.Server.{Rest, pipe, pipe_name, server, read, delete}
use gstd_1_x.Server.References.{Clients, at_pipelines, find_pipe, goes}

check-stops : {S : Type 0} (code : ReturnCode) (s : S) → code ≢ eok → (check code s).0 ≢ done tt
check-stops eok s h = absurd (h refl)
check-stops _ s h = λ e. cc

check-end : {S : Type 0} (code : ReturnCode) (s : S) → (check code s).1 ≡ s
check-end eok s = refl
check-end _ s = refl

module _ (g : GLib) {W : Type 0} (gst : Gst W) (rest : Rest gst.Element W) where
  open gst use {Element}

  abbrev ended : (ReturnCode × NodeList (Pipeline Element)) × W → Clients g gst rest
  ended ((code, l), w) = record { store = record { pipelines = l; world = w }; response = none }

  delete_line :
      (name : Text) (c : Clients g gst rest)
      → IsName name
      → parse_cmd g (server gst rest) (codes "pipeline_delete" ++ space ∷ name) c ≡ (
          let d =
            NodeList.delete (pipe_name gst) (deleter gst) c.store.pipelines name c.store.world in
          check d.0.0 (ended d))
  unfolding run walk child_of object_read read Raw.delete object_delete delete
  delete_line name c h =
      rw (parse_cmd-pipeline g (server gst rest) (PipelineOrders.delete_pipeline name) h) refl

  goes-last :
      (name : Text) (c : Clients g gst rest) (p : Pipeline Element)
      → pipe gst name c.store ≡ some p
      → p.refcount ≡ 1
      → goes g gst rest name c
        ≡ parse_cmd g (server gst rest) (codes "pipeline_delete" ++ space ∷ name) c
  unfolding cmds pipeline_delete_ref delete_or_drop
  goes-last name c p e d =
      rw
        (
          parse_cmd-word g (server gst rest) (codes "pipeline_delete_ref") name (omega arith),
          parse_cmd-word g (server gst rest) (codes "pipeline_delete") name (omega arith),
          at_pipelines g gst rest c,
          find_pipe g gst rest name c p e,
        )
        (rw (e, d) refl)

  -- What the last reference comes to, by what deleting in the list comes to.
  abbrev pub LastEnds :
      Text → Clients g gst rest → Pipeline Element → Exit {0} Unit × Clients g gst rest → Type 0
  LastEnds name c p (exit, c') =
      IsValid (pipe_name gst) c'.store.pipelines
      × (((exit ≡ done tt)
            × Removes (pipe_name gst) c.store.pipelines name c'.store.pipelines
            × Stops gst p c.store.world)
          ⊎ ((exit ≢ done tt) × (c'.store.pipelines ≡ c.store.pipelines)))

  delete-LastEnds :
      (name : Text) (c : Clients g gst rest) (p : Pipeline Element)
      (d : (ReturnCode × NodeList (Pipeline Element)) × W)
      → pipe gst name c.store ≡ some p
      → IsValid (pipe_name gst) d.0.1
      → Deleted gst c.store.pipelines name c.store.world d.0
      → LastEnds name c p (check d.0.0 (ended d))
  delete-LastEnds name c p d e v (inl (q, removes, (p', e', stops))) =
      let same : p' ≡ p = cc (e, e') in
      rw q (v, inl (refl, removes, subst (λ x. Stops gst x c.store.world) same stops))
  delete-LastEnds name c p d e v (inr (q, same)) =
      rw (check-end d.0.0 (ended d)) (v, inr (check-stops d.0.0 (ended d) q, same))

  -- When the only client of a pipeline in a valid list goes with pipeline_delete_ref, the list stays
  -- valid, and either there is no error, GStreamer has accepted to stop the pipeline, and the pipeline
  -- has gone and no other one; or there is an error, and the list is as it was.
  pub last_client_deletes :
      (name : Text) (c : Clients g gst rest) (p : Pipeline Element)
      → IsName name
      → IsValid (pipe_name gst) c.store.pipelines
      → pipe gst name c.store ≡ some p
      → p.refcount ≡ 1
      → LastEnds name c p (goes g gst rest name c)
  last_client_deletes name c p h v e d =
      let (v', deleted) = delete_pipeline gst c.store.pipelines name c.store.world v in
      rw (goes-last name c p e d, delete_line name c h)
        (delete-LastEnds name c p
          (NodeList.delete (pipe_name gst) (deleter gst) c.store.pipelines name c.store.world) e v'
          deleted)
