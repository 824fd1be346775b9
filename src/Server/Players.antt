-- ===== src/Server/Players.antt =====
-- The commands that count how many clients want a pipeline playing, at a server.
use gstd_1_x.Base.{
  ℕ, zero, suc, ◌+◌, ◌<◌, ◌≡◌, ◌≢◌, refl, ◌∙◌, Text, codes, [], ◌∷◌, ◌++◌, some, Option-cases, inl,
  inr, space, text_eq, text_eq_refl, text_eq_iff, ◌==◌, false, arith,
}
use gstd_1_x.Action.{done, pure, ◌>>◌}
use gstd_1_x.GLib.{GLib}
use gstd_1_x.Gst.{Gst}
use gstd_1_x.NodeList.{guint_mod, find_child}
use gstd_1_x.NodeList.Laws.{find_change}
use gstd_1_x.Object.{Command, object_read, object_to_string}
use gstd_1_x.Session.{walk, child_of, get_by_uri}
use gstd_1_x.State.Laws.{decrement-refcount}
use gstd_1_x.Session.Uri.{get_by_uri-path}
use gstd_1_x.Parser.Requests.{IsName, literal, IsName-IsSegment, parse_cmd-word}
use gstd_1_x.Parser.Words.{of_pipeline}
use gstd_1_x.Parser.Refs.{
  increment, decrement, refcount_of, play_or_report, stop_or_report, pipeline_play_ref,
  pipeline_stop_ref,
}
use gstd_1_x.Parser.Dispatch.{cmds, parse_cmd}
use gstd_1_x.Pipeline.{Pipeline}
use gstd_1_x.State
use gstd_1_x.State.{State}
use gstd_1_x.Server.{
  Store, Rest, session, pipeline, state, pipe, pipe_name, with_pipe, with_state, on_state, server,
  read, to_string,
}
use gstd_1_x.Server.Paths.{get_by_uri-pipeline}
use gstd_1_x.Server.References.{Clients}

module _ (g : GLib) {W : Type 0} (gst : Gst W) (rest : Rest gst.Element W) where
  open gst use {Element}

  state_path :
      (name : Text) (c : Clients g gst rest) (p : Pipeline Element) (st : State Element)
      → IsName name
      → text_eq (codes "count") name ≡ false
      → pipe gst name c.store ≡ some p
      → p.state ≡ some st
      → walk (server gst rest) (some session) (codes "pipelines" ∷ name ∷ codes "state" ∷ []) c
        ≡ (done (some (state name)), c)
  unfolding walk child_of object_read read
  state_path [] c p st h u e f = absurd (h.nonempty refl)
  state_path (k ∷ n) c p st h u e f = rw u (rw e (rw e (rw f refl)))

  decrement_to :
      (st : State Element) (n : ℕ)
      → st.refcount ≡ n + 1
      → (State.decrement_refcount st).refcount ≡ n
  decrement_to st n k = decrement-refcount st ∙ rw k (omega arith)

  -- What a method of the pipeline of a name leaves there.
  pipe-with_pipe :
      (name : Text) (f : Pipeline Element → Pipeline Element) (s : Store Element W)
      (p : Pipeline Element)
      → ((x : Pipeline Element) → pipe_name gst (f x) ≡ pipe_name gst x)
      → pipe gst name s ≡ some p
      → pipe gst name (with_pipe gst name f s) ≡ some (f p)
  unfolding find_child
  pipe-with_pipe name f s p n e =
      rw (find_change (pipe_name gst) f s.pipelines.nodes name name n)
        (rw (text_eq_refl name, e) refl)

  -- The pipeline is there, so many clients want it playing, and the world is as `Q` says.
  abbrev pub IsPlayedBy : Text → (W → Type 0) → ℕ → Clients g gst rest → Type 0
  IsPlayedBy name Q n c =
      (p : Pipeline Element) × (st : State Element) × (pipe gst name c.store ≡ some p)
      × (p.state ≡ some st)
      × (st.refcount ≡ n)
      × Q c.store.world

  -- Some clients want the pipeline playing, and then do not.
  abbrev pub players : Text → ℕ → Command (Store Element W) Unit
  players name zero = pure tt
  players name (suc k) = do
    parse_cmd g (server gst rest) (codes "pipeline_play_ref" ++ space ∷ name)
    players name k
    parse_cmd g (server gst rest) (codes "pipeline_stop_ref" ++ space ∷ name)

  module _ (name : Text) (h : IsName name) (d : name ≢ codes "count") where
    uncounted : text_eq (codes "count") name ≡ false
    uncounted = ground (arith, text_eq_iff (codes "count") name, d)

    at_pipeline :
        (c : Clients g gst rest) (p : Pipeline Element)
        → pipe gst name c.store ≡ some p
        → get_by_uri (server gst rest) g (of_pipeline name []) c ≡ (done (some (pipeline name)), c)
    at_pipeline c p e =
        get_by_uri-pipeline g gst rest name c (IsName-IsSegment h) ∙ rw uncounted (rw e refl)

    at_state :
        (c : Clients g gst rest) (p : Pipeline Element) (st : State Element)
        → pipe gst name c.store ≡ some p
        → p.state ≡ some st
        → get_by_uri (server gst rest) g (of_pipeline name (codes "/state")) c
          ≡ (done (some (state name)), c)
    at_state c p st e f =
        rw
          (get_by_uri-path g (server gst rest) (codes "pipelines") (name ∷ codes "state" ∷ [])
            (IsName-IsSegment (literal _ refl))
            (IsName-IsSegment h, (IsName-IsSegment (literal _ refl), tt)))
          (state_path name c p st h uncounted e f)

    -- The state is refreshed, printed and counted.
    abbrev reported :
        (State Element → State Element) → State Element → Clients g gst rest → Clients g gst rest
    reported count st c =
        let r = State.refresh gst st c.store.world in
        record {
          store = with_pipe gst name (on_state gst rest count) (with_state gst name r c.store);
          response = some (rest.print_state r.0);
        }

    play_ref-reports :
        (c : Clients g gst rest) (p : Pipeline Element) (st : State Element)
        → pipe gst name c.store ≡ some p
        → p.state ≡ some st
        → st.refcount ≢ 0
        → parse_cmd g (server gst rest) (codes "pipeline_play_ref" ++ space ∷ name) c
          ≡ (done tt, reported State.increment_refcount st c)
    unfolding cmds pipeline_play_ref play_or_report refcount_of increment object_to_string to_string
    play_ref-reports c p st e f n =
        let some_players : (st.refcount == 0) ≡ false = ground arith in
        rw
          (
            parse_cmd-word g (server gst rest) (codes "pipeline_play_ref") name (omega arith),
            at_pipeline c p e,
            at_state c p st e f,
          )
          (rw e (rw f (rw some_players (rw e (rw f refl)))))

    stop_ref-reports :
        (c : Clients g gst rest) (p : Pipeline Element) (st : State Element)
        → pipe gst name c.store ≡ some p
        → p.state ≡ some st
        → st.refcount ≢ 1
        → parse_cmd g (server gst rest) (codes "pipeline_stop_ref" ++ space ∷ name) c
          ≡ (done tt, reported State.decrement_refcount st c)
    unfolding cmds pipeline_stop_ref stop_or_report refcount_of decrement object_to_string to_string
    stop_ref-reports c p st e f n =
        let other_players : (st.refcount == 1) ≡ false = ground arith in
        rw
          (
            parse_cmd-word g (server gst rest) (codes "pipeline_stop_ref") name (omega arith),
            at_pipeline c p e,
            at_state c p st e f,
          )
          (rw e (rw f (rw other_players (rw e (rw f refl)))))

    module _ (Q : W → Type 0) (kept : (e : Element) (w : W) → Q w → Q (gst.get_state e w).1) where
      refresh-keeps : (st : State Element) (w : W) → Q w → Q (State.refresh gst st w).1
      unfolding State.refresh
      refresh-keeps st w q = elim (Option-cases st.target) [
        | inl e ↦ rw e q
        | inr (t, e) ↦ rw e (kept t w q)
      ]

      refresh-refcount :
          (st : State Element) (w : W) → (State.refresh gst st w).0.refcount ≡ st.refcount
      unfolding State.refresh
      refresh-refcount st w = refl

      reported-IsPlayedBy :
          (count : State Element → State Element) (c : Clients g gst rest) (p : Pipeline Element)
          (st : State Element) (n : ℕ)
          → pipe gst name c.store ≡ some p
          → (count (State.refresh gst st c.store.world).0).refcount ≡ n
          → Q c.store.world
          → IsPlayedBy name Q n (reported count st c)
      reported-IsPlayedBy count c p st n e k q =
          let r = State.refresh gst st c.store.world in
          (
            record p { state = some (count r.0) },
            count r.0,
            pipe-with_pipe name (on_state gst rest count) (with_state gst name r c.store)
                (record p { state = some r.0 }) (λ x. refl)
                (pipe-with_pipe name (λ x. record x { state = some r.0 }) c.store p (λ x. refl) e),
            refl,
            k,
            refresh-keeps st c.store.world q,
          )

      play_ref-IsPlayedBy :
          (n : ℕ) (c : Clients g gst rest)
          → n ≢ 0
          → n + 1 < guint_mod
          → IsPlayedBy name Q n c
          → (c' : Clients g gst rest) × (parse_cmd g
                (server gst rest)
                (codes "pipeline_play_ref" ++ space ∷ name)
                c
              ≡ (done tt, c'))
            × IsPlayedBy name Q (n + 1) c'
      unfolding State.increment_refcount State.refresh
      play_ref-IsPlayedBy n c m b (p, st, e, f, k, q) = (
        reported State.increment_refcount st c,
        play_ref-reports c p st e f (rw k m),
        reported-IsPlayedBy State.increment_refcount c p st (n + 1) e (rw k (omega arith)) q,
      )

      stop_ref-IsPlayedBy :
          (n : ℕ) (c : Clients g gst rest)
          → n ≢ 0
          → IsPlayedBy name Q (n + 1) c
          → (c' : Clients g gst rest) × (parse_cmd g
                (server gst rest)
                (codes "pipeline_stop_ref" ++ space ∷ name)
                c
              ≡ (done tt, c'))
            × IsPlayedBy name Q n c'
      unfolding State.decrement_refcount State.refresh
      stop_ref-IsPlayedBy n c m (p, st, e, f, k, q) = (
        reported State.decrement_refcount st c,
        stop_ref-reports c p st e f (rw k (omega arith)),
        reported-IsPlayedBy State.decrement_refcount c p st n e (decrement_to _ n k) q,
      )

      -- On a pipeline that a client wants playing already, any number of clients that come with
      -- pipeline_play_ref and go with pipeline_stop_ref, each without an error, leave as many clients
      -- as there were, as long as their number fits a guint; and GStreamer is asked for nothing but
      -- its state, so that whatever this keeps still holds. The pipeline is not called "count".
      pub players_come_and_go :
          (k n : ℕ) (c : Clients g gst rest)
          → n ≢ 0
          → n + k < guint_mod
          → IsPlayedBy name Q n c
          → (c' : Clients g gst rest) × (players name k c ≡ (done tt, c')) × IsPlayedBy name Q n c'
      players_come_and_go zero n c m b v = (c, refl, v)
      players_come_and_go (suc k) n c m b v =
          let (c1, e1, v1) = play_ref-IsPlayedBy n c m (omega arith) v in
          let (c2, e2, v2) = players_come_and_go k (n + 1) c1 (omega arith) (omega arith) v1 in
          let (c3, e3, v3) = stop_ref-IsPlayedBy n c2 m v2 in (c3, rw (e1, e2, e3) refl, v3)
