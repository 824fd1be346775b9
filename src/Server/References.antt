-- ===== src/Server/References.antt =====
-- The commands that count the clients of a pipeline, at a server.
use gstd_1_x.Base.{
  ℕ, zero, suc, ap, ◌+◌, ◌<◌, ◌≡◌, ◌≢◌, refl, Text, codes, [], ◌∷◌, ◌++◌, some, space, arith,
  text_eq_refl, ◌==◌, false,
}
use gstd_1_x.Action.{done, pure, ◌>>◌}
use gstd_1_x.GLib.{GLib}
use gstd_1_x.Gst.{Gst}
use gstd_1_x.NodeList.{guint_mod, find_child}
use gstd_1_x.NodeList.Laws.{find_change, change_back}
use gstd_1_x.Object.{Context, Command, object_read}
use gstd_1_x.Session.{walk, child_of, get_by_uri}
use gstd_1_x.Session.Uri.{get_by_uri-path}
use gstd_1_x.Parser.Requests.{IsName, literal, IsName-IsSegment, parse_cmd-word}
use gstd_1_x.Parser.Tokens.{two_tokens}
use gstd_1_x.Parser.Refs.{
  same_text, find_in, increment, decrement, create_or_share, delete_or_drop, pipeline_create_ref,
  pipeline_delete_ref,
}
use gstd_1_x.Parser.Dispatch.{cmds, parse_cmd}
use gstd_1_x.Pipeline.{Pipeline, increment_refcount, decrement_refcount}
use gstd_1_x.Server.{Store, Rest, pipelines, pipeline, pipe, pipe_name, with_pipe, server, read}

module _ (g : GLib) {W : Type 0} (gst : Gst W) (rest : Rest gst.Element W) where
  open gst use {Element}

  abbrev pub Clients : Type 0
  Clients = Context (Store Element W)

  pub at_pipelines :
      (c : Clients)
      → get_by_uri (server gst rest) g (codes "/pipelines") c ≡ (done (some pipelines), c)
  unfolding walk child_of object_read read
  at_pipelines c =
      rw
        (get_by_uri-path g (server gst rest) (codes "pipelines") []
          (IsName-IsSegment (literal _ refl)) tt)
        refl

  pub find_pipe :
      (n : Text) (c : Clients) (p : Pipeline Element)
      → pipe gst n c.store ≡ some p
      → find_in g (server gst rest) (some pipelines) (some n) c.store ≡ some (pipeline n)
  unfolding find_in
  find_pipe n c p e = rw e refl

  -- The context with one pipeline changed.
  abbrev pub changed : Text → (Pipeline Element → Pipeline Element) → Clients → Clients
  changed n f c = record c { store = with_pipe gst n f c.store }

  pub create_ref-shares :
      (name description : Text) (c : Clients) (p : Pipeline Element)
      → IsName name
      → pipe gst name c.store ≡ some p
      → p.description ≡ description
      → parse_cmd g
          (server gst rest)
          (codes "pipeline_create_ref" ++ space ∷ (name ++ space ∷ description))
          c
        ≡ (done tt, changed name increment_refcount c)
  unfolding cmds pipeline_create_ref create_or_share find_in same_text increment
  create_ref-shares name description c p h e d =
      rw
        (
          parse_cmd-word g (server gst rest) (codes "pipeline_create_ref")
              (name ++ space ∷ description) (omega arith),
          two_tokens g name description h.no_space,
          at_pipelines c,
          find_pipe name c p e,
        )
        (rw (e, d, text_eq_refl description) refl)

  pub delete_ref-drops :
      (name : Text) (c : Clients) (p : Pipeline Element)
      → pipe gst name c.store ≡ some p
      → p.refcount ≢ 1
      → parse_cmd g (server gst rest) (codes "pipeline_delete_ref" ++ space ∷ name) c
        ≡ (done tt, changed name decrement_refcount c)
  unfolding cmds pipeline_delete_ref delete_or_drop find_in decrement
  delete_ref-drops name c p e d =
      let many : (p.refcount == 1) ≡ false = ground arith in
      rw
        (
          parse_cmd-word g (server gst rest) (codes "pipeline_delete_ref") name (omega arith),
          at_pipelines c,
          find_pipe name c p e,
        )
        (rw (e, many) refl)

  increment-name : (p : Pipeline Element) → pipe_name gst (increment_refcount p) ≡ pipe_name gst p
  unfolding increment_refcount
  increment-name p = refl

  increment-refcount :
      (p : Pipeline Element)
      → p.refcount + 1 < guint_mod
      → (increment_refcount p).refcount ≡ p.refcount + 1
  unfolding increment_refcount
  increment-refcount p h = omega arith

  decrement-increment :
      (p : Pipeline Element)
      → p.refcount + 1 < guint_mod
      → decrement_refcount (increment_refcount p) ≡ p
  unfolding increment_refcount decrement_refcount
  decrement-increment p h = ground arith

  pipe-changed :
      (n : Text) (c : Clients) (p : Pipeline Element)
      → pipe gst n c.store ≡ some p
      → pipe gst n (changed n increment_refcount c).store ≡ some (increment_refcount p)
  unfolding find_child
  pipe-changed n c p e =
      rw (find_change (pipe_name gst) increment_refcount c.store.pipelines.nodes n n increment-name)
        (rw (text_eq_refl n, e) refl)

  changed-back :
      (n : Text) (c : Clients) (p : Pipeline Element)
      → pipe gst n c.store ≡ some p
      → p.refcount + 1 < guint_mod
      → changed n decrement_refcount (changed n increment_refcount c) ≡ c
  unfolding find_child
  changed-back n c p e h =
      rw
        (change_back (pipe_name gst) increment_refcount decrement_refcount c.store.pipelines.nodes n
          p increment-name e (decrement-increment p h))
        refl

  -- The lines of a client of the pipeline.
  abbrev pub comes : Text → Text → Command (Store Element W) Unit
  comes name description =
      parse_cmd g (server gst rest)
        (codes "pipeline_create_ref" ++ space ∷ (name ++ space ∷ description))

  abbrev pub goes : Text → Command (Store Element W) Unit
  goes name = parse_cmd g (server gst rest) (codes "pipeline_delete_ref" ++ space ∷ name)

  -- Some clients come, and then go.
  abbrev pub clients : ℕ → Text → Text → Command (Store Element W) Unit
  clients zero name description = pure tt
  clients (suc k) name description = do
    comes name description
    clients k name description
    goes name

  -- On a pipeline that is there with the same description and has a client already, any number of
  -- clients that come with pipeline_create_ref and go with pipeline_delete_ref, each without an
  -- error, leave the server as it was, as long as their number fits a guint. So the pipeline
  -- outlives all of them.
  pub clients_come_and_go :
      (k : ℕ) (name description : Text) (c : Clients) (p : Pipeline Element)
      → IsName name
      → pipe gst name c.store ≡ some p
      → p.description ≡ description
      → p.refcount ≢ 0
      → p.refcount + k < guint_mod
      → clients k name description c ≡ (done tt, c)
  clients_come_and_go zero name description c p h e d n b = refl
  clients_come_and_go (suc k) name description c p h e d n b =
      let c' = changed name increment_refcount c in
      let p' = increment_refcount p in
      let more = increment-refcount p (omega arith) in
      let e' = pipe-changed name c p e in
      rw
        (
          create_ref-shares name description c p h e d,
          clients_come_and_go k name description c' p' h e' (unfold increment_refcount in d)
              (rw more (omega arith)) (rw more (omega arith)),
          delete_ref-drops name c' p' e' (rw more (omega arith)),
        )
        (ap (λ x. (done tt, x)) (changed-back name c p e (omega arith)))
