-- ===== src/Parser/SafeLines.antt =====
-- The safety of the reference counting commands, of the table, and of a line.
use gstd_1_x.Base.{
  ℕ, sym, text_eq_iff, Bool-cases, Text, codes, ◌≡◌, ◌≢◌, refl, ◌∙◌, List, [], ◌∷◌, map, to_lower,
  text_eq, All, ◌⨾◌, Option, none, some, space, inl, inr,
}
use gstd_1_x.Action.{Exit, done, stop, fault, continue, ◌>>=◌, ◌>>◌}
use gstd_1_x.Action.Safe.{Safe, Safe-return, Safe-bind, safe_rules}
use gstd_1_x.GLib.{GLib}
use gstd_1_x.Object.{ObjectTree, Context, Command}
use gstd_1_x.Object.Sound.{IsSound, OfStore, Safe-call}
use gstd_1_x.Session.{get_by_uri}
use gstd_1_x.Parser.Words.{Argument, null, str, wild, of_pipeline}
use gstd_1_x.Parser.Tokens.{first_cut, EndsWell, EndsWell-rest}
use mathlib.Core.Path.{subst}
use gstd_1_x.Parser.Pipelines.{pipeline_create}
use gstd_1_x.Parser.Safety.{
  parser_rules, IsProper, raw_cmd-Safe, get_by_uri-Safe, with_argument-Safe,
}
use gstd_1_x.Parser.SafeCommands
use gstd_1_x.Parser.SafeCommands.{
  pipeline_create-Safe, pipeline_delete-Safe, pipeline_play-Safe, pipeline_stop-Safe,
}
use gstd_1_x.Parser.Refs.{
  increment, decrement, lock, create_or_share, delete_or_drop, play_or_report, stop_or_report,
  pipeline_create_ref, pipeline_delete_ref, pipeline_play_ref, pipeline_stop_ref,
}
use gstd_1_x.Parser.Requests.{pick, parse_cmd-word, parse_cmd-bare}
use gstd_1_x.Parser.Dispatch.{Callback, cmds, parse_cmd}

-- The part of a tree that the play and stop references look at: a path below a pipeline that leads
-- to no object has no state below it.
abbrev pub HasNoLooseState : (g : GLib) (t : ObjectTree) → (t.Store → Type 0) → Type 0
HasNoLooseState g t P =
    (args : Text) (c : Context t.Store)
    → P c.store
    → (get_by_uri t g (of_pipeline args []) c).0 ≡ done none
    → (state : Option t.Node)
    → (get_by_uri t g (of_pipeline args (codes "/state"))
        (get_by_uri t g (of_pipeline args []) c).1).0
      ≢ done state

-- The name of the command that creates from no argument.
abbrev pub bare_create : Text
bare_create = codes "pipeline_create"

module _ (g : GLib) (t : ObjectTree) (P : t.Store → Type 0) (sound : IsSound t P)
    (no_loose : HasNoLooseState g t P) where
  open t use {Node, Store}

  increment-Safe : (n : Option Node) → Safe (OfStore P) (increment g t n)
  unfolding increment
  increment-Safe none = Safe-return _
  increment-Safe (some n) = search (safe_rules, Safe-call, sound.increment_keeps)

  decrement-Safe : (n : Option Node) → Safe (OfStore P) (decrement g t n)
  unfolding decrement
  decrement-Safe none = Safe-return _
  decrement-Safe (some n) = search (safe_rules, Safe-call, sound.decrement_keeps)

  str-ne-wild : (s : Text) → str s ≢ wild
  str-ne-wild s e = cc

  ruleset ref_rules = (
    parser_rules, increment-Safe, decrement-Safe, pipeline_create-Safe, pipeline_delete-Safe,
    pipeline_play-Safe, pipeline_stop-Safe, str-ne-wild,
  )

  create_or_share-Safe :
      (c : ℕ) (s : Text) (l : Option Node) (ts : List Text) (p : Option Node)
      → Safe (OfStore P) (create_or_share g t (c ∷ s) l ts p)
  unfolding create_or_share
  create_or_share-Safe c s l ts none = search ref_rules depth 8
  create_or_share-Safe c s l ts (some p) = search ref_rules depth 8

  delete_or_drop-Safe :
      (args : Text) (p : Option Node) → Safe (OfStore P) (delete_or_drop g t args p)
  unfolding delete_or_drop
  delete_or_drop-Safe args none = Safe-return _
  delete_or_drop-Safe args (some p) = search ref_rules depth 8

  play_or_report-Safe :
      (args : Text) (s : Option Node) → Safe (OfStore P) (play_or_report g t args s)
  unfolding play_or_report
  play_or_report-Safe args s = search ref_rules depth 8

  stop_or_report-Safe :
      (args : Text) (s : Option Node) → Safe (OfStore P) (stop_or_report g t args s)
  unfolding stop_or_report
  stop_or_report-Safe args s = search ref_rules depth 8

  create_ref-Safe :
      (w : Option Text) (a : Argument)
      → IsProper g t P sound a
      → Safe (OfStore P) (pipeline_create_ref g t w a)
  unfolding pipeline_create_ref
  create_ref-Safe none a h = Safe-return _
  create_ref-Safe (some w) null h = Safe-return _
  create_ref-Safe (some w) (str []) h = absurd (h.0 refl)
  create_ref-Safe (some w) (str (c ∷ s)) h = search (ref_rules, create_or_share-Safe) depth 8
  create_ref-Safe (some w) wild h = absurd h

  delete_ref-Safe :
      (w : Option Text) (a : Argument) → a ≢ wild → Safe (OfStore P) (pipeline_delete_ref g t w a)
  unfolding pipeline_delete_ref
  delete_ref-Safe none a h = Safe-return _
  delete_ref-Safe (some w) a h = search (ref_rules, delete_or_drop-Safe) depth 8

  -- What the play and stop references do once they have the pipeline.
  abbrev locked : (k : Option Node → Command Store Unit) → Text → Option Node → Command Store Unit
  locked k args pipeline = do
    state ← get_by_uri t g (of_pipeline args (codes "/state"))
    lock g t pipeline
    k state

  module _ (k : Option Node → Command Store Unit)
      (safe : (s : Option Node) → Safe (OfStore P) (k s)) where
    locked-none :
        (e : Exit (Option Node)) (c : Context Store)
        → P c.store
        → e ≢ fault
        → ((s : Option Node) → e ≢ done s)
        → let m = continue e (λ state. lock g t none >> k state) in
          P (m c).1.store × ((m c).0 ≢ fault)
    locked-none (done s) c p h n = absurd (n s refl)
    locked-none (stop code) c p h n = (p, λ e. cc)
    locked-none fault c p h n = absurd (h refl)

    module _ (args : Text) where
      abbrev pipeline : Command Store (Option Node)
      pipeline = get_by_uri t g (of_pipeline args [])

      abbrev state : Command Store (Option Node)
      state = get_by_uri t g (of_pipeline args (codes "/state"))

      pipeline-Safe : Safe (OfStore P) pipeline
      pipeline-Safe = get_by_uri-Safe g t P sound (of_pipeline args [])

      state-Safe : Safe (OfStore P) state
      state-Safe = get_by_uri-Safe g t P sound (of_pipeline args (codes "/state"))

      locked-some : (n : Node) → Safe (OfStore P) (locked k args (some n))
      locked-some n = Safe-bind _ _ state-Safe (λ s. safe s)

      after_pipeline :
          (c : Context Store)
          → P c.store
          → (e : Exit (Option Node)) → (pipeline c).0 ≡ e
          → let m = continue e (locked k args) (pipeline c).1 in P m.1.store × (m.0 ≢ fault)
      after_pipeline c h (done none) q =
          let c' = (pipeline c).1 in
          let h' = pipeline-Safe.keeps c h in
          locked-none (state c').0 (state c').1 (state-Safe.keeps c' h') (state-Safe.defined c' h')
            (no_loose args c h q)
      after_pipeline c h (done (some n)) q =
          let h' = pipeline-Safe.keeps c h in
          ((locked-some n).keeps (pipeline c).1 h', (locked-some n).defined (pipeline c).1 h')
      after_pipeline c h (stop code) q = (pipeline-Safe.keeps c h, λ e. cc)
      after_pipeline c h fault q = absurd (pipeline-Safe.defined c h q)

      with_lock : Safe (OfStore P) (pipeline >>= locked k args)
      with_lock = record {
        keeps = λ c h. (after_pipeline c h (pipeline c).0 refl).0;
        defined = λ c h. (after_pipeline c h (pipeline c).0 refl).1;
      }

  play_ref-Safe :
      (w : Option Text) (a : Argument) → a ≢ wild → Safe (OfStore P) (pipeline_play_ref g t w a)
  unfolding pipeline_play_ref
  play_ref-Safe none a h = Safe-return _
  play_ref-Safe (some w) a h =
      with_argument-Safe g t P sound a _ _ h
        (λ args. with_lock (play_or_report g t args) (play_or_report-Safe args) args)

  stop_ref-Safe :
      (w : Option Text) (a : Argument) → a ≢ wild → Safe (OfStore P) (pipeline_stop_ref g t w a)
  unfolding pipeline_stop_ref
  stop_ref-Safe none a h = Safe-return _
  stop_ref-Safe (some w) a h =
      with_argument-Safe g t P sound a _ _ h
        (λ args. with_lock (stop_or_report g t args) (stop_or_report-Safe args) args)

  -- An entry of the table that is safe on every argument that is NULL or does not end in a space; that
  -- of pipeline_create not on NULL.
  abbrev IsSafeEntry : Text × Callback g t → Type 0
  IsSafeEntry (name, callback) =
      (w : Option Text) (a : Argument)
      → IsProper g t P sound a
      → (a ≡ null → map to_lower name ≢ bare_create)
      → Safe (OfStore P) (callback w a)

  proper-ne-wild : (a : Argument) → IsProper g t P sound a → a ≢ wild
  proper-ne-wild null h e = cc
  proper-ne-wild (str s) h e = cc
  proper-ne-wild wild h e = absurd h

  -- An entry that is safe on every argument that can be looked at.
  abbrev entry :
      {f : Argument → Command Store Unit}
      → ((a : Argument) → a ≢ wild → Safe (OfStore P) (f a))
      → (a : Argument) → IsProper g t P sound a
      → Safe (OfStore P) (f a)
  entry safe a h = safe a (proper-ne-wild a h)

  created_entry :
      (a : Argument) → IsProper g t P sound a → a ≢ null → Safe (OfStore P) (pipeline_create g t a)
  created_entry null h n = absurd (n refl)
  created_entry (str []) h n = absurd (h.0 refl)
  created_entry (str (c ∷ s)) h n = SafeCommands.pipeline_create-Safe g t P sound c s
  created_entry wild h n = absurd h

  cmds-Safe : All IsSafeEntry (cmds g t)
  unfolding cmds
  cmds-Safe =
      (λ w a h k. raw_cmd-Safe g t P sound w a h)
      ⨾ (λ w a h k. raw_cmd-Safe g t P sound w a h)
      ⨾ (λ w a h k. raw_cmd-Safe g t P sound w a h)
      ⨾ (λ w a h k. raw_cmd-Safe g t P sound w a h)
      ⨾ (λ w a h k. created_entry a h (λ e. k e refl))
      ⨾ (λ w a h k. entry (SafeCommands.pipeline_delete-Safe g t P sound) a h)
      ⨾ (λ w a h k. entry (SafeCommands.pipeline_play-Safe g t P sound) a h)
      ⨾ (λ w a h k. entry (SafeCommands.pipeline_pause-Safe g t P sound) a h)
      ⨾ (λ w a h k. entry (SafeCommands.pipeline_stop-Safe g t P sound) a h)
      ⨾ (λ w a h k. entry (SafeCommands.pipeline_graph-Safe g t P sound) a h)
      ⨾ (λ w a h k. entry (SafeCommands.pipeline_verbose-Safe g t P sound) a h)
      ⨾ (λ w a h k. entry (SafeCommands.element_set-Safe g t P sound) a h)
      ⨾ (λ w a h k. entry (SafeCommands.element_get-Safe g t P sound) a h)
      ⨾ (λ w a h k. entry (SafeCommands.list_pipelines-Safe g t P sound) a h)
      ⨾ (λ w a h k. entry (SafeCommands.list_elements-Safe g t P sound) a h)
      ⨾ (λ w a h k. entry (SafeCommands.list_properties-Safe g t P sound) a h)
      ⨾ (λ w a h k. entry (SafeCommands.list_signals-Safe g t P sound) a h)
      ⨾ (λ w a h k. entry (SafeCommands.bus_read-Safe g t P sound) a h)
      ⨾ (λ w a h k. entry (SafeCommands.bus_filter-Safe g t P sound) a h)
      ⨾ (λ w a h k. entry (SafeCommands.bus_timeout-Safe g t P sound) a h)
      ⨾ (λ w a h k. entry (SafeCommands.event_eos-Safe g t P sound) a h)
      ⨾ (λ w a h k. entry (SafeCommands.event_seek-Safe g t P sound) a h)
      ⨾ (λ w a h k. entry (SafeCommands.event_flush_start-Safe g t P sound) a h)
      ⨾ (λ w a h k. entry (SafeCommands.event_flush_stop-Safe g t P sound) a h)
      ⨾ (λ w a h k. entry (SafeCommands.signal_connect-Safe g t P sound) a h)
      ⨾ (λ w a h k. entry (SafeCommands.signal_timeout-Safe g t P sound) a h)
      ⨾ (λ w a h k. entry (SafeCommands.signal_disconnect-Safe g t P sound) a h)
      ⨾ (λ w a h k. SafeCommands.action_emit-Safe g t P sound a h)
      ⨾ (λ w a h k. entry (SafeCommands.debug_enable-Safe g t P sound) a h)
      ⨾ (λ w a h k. entry (SafeCommands.debug_threshold-Safe g t P sound) a h)
      ⨾ (λ w a h k. entry (SafeCommands.debug_color-Safe g t P sound) a h)
      ⨾ (λ w a h k. entry (SafeCommands.debug_reset-Safe g t P sound) a h)
      ⨾ (λ w a h k. create_ref-Safe w a h)
      ⨾ (λ w a h k. entry (delete_ref-Safe w) a h)
      ⨾ (λ w a h k. entry (play_ref-Safe w) a h)
      ⨾ (λ w a h k. entry (stop_ref-Safe w) a h)
      ⨾ tt

  pick-Safe :
      (table : List (Text × Callback g t)) (w : Text) (action : Option Text) (a : Argument)
      → IsProper g t P sound a
      → (a ≡ null → map to_lower w ≢ bare_create)
      → All IsSafeEntry table
      → Safe (OfStore P) (pick g t table w action a)
  pick-Safe [] w action a h k all = Safe-return _
  pick-Safe ((name, callback) ∷ rest) w action a h k all =
      elim (Bool-cases (text_eq (map to_lower name) (map to_lower w))) [
        | inl e ↦
            let same = (text_eq_iff (map to_lower name) (map to_lower w)).0 e in
            rw e (all.0 action a h (λ n q. k n (sym same ∙ q)))
        | inr e ↦ rw e (pick-Safe rest w action a h k all.1)
      ]

  -- A line that is not empty, does not end in a space, and is not the word "pipeline_create" alone, in
  -- any case of its letters, is never undefined, and what all operations of the resources keep is
  -- kept by it: on every tree of resources whose reads write the pointers that they owe, and where no
  -- state stands below a path to no object.
  pub parse_cmd-Safe :
      (line : Text)
      → EndsWell line
      → map to_lower line ≢ bare_create
      → Safe (OfStore P) (parse_cmd g t line)
  parse_cmd-Safe line h b = elim (first_cut space line) [
    | inl free ↦
        rw (parse_cmd-bare g t line h.0 free)
          (pick-Safe (cmds g t) line (some line) null tt (λ _. b) cmds-Safe)
    | inr (w, r, free, e) ↦
        rw (e, parse_cmd-word g t w r free)
          (pick-Safe (cmds g t) w (some w) (str r) (EndsWell-rest w r (subst EndsWell e h))
            (λ q. cc) cmds-Safe)
  ]
