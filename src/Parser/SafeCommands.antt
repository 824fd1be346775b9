-- ===== src/Parser/SafeCommands.antt =====
-- The safety of each command that composes a line: one lemma for each.
use gstd_1_x.Base.{
  ◌≡◌, ◌≢◌, refl, ℕ, Text, codes, ◌++◌, ◌∷◌, [], append_assoc, some, space, get_elem?, List, length,
  ◌≤◌, arith,
}
use gstd_1_x.ReturnCode.{bad_command}
use gstd_1_x.Action.Safe.{Safe, Safe-return}
use gstd_1_x.GLib.{GLib}
use gstd_1_x.Object.{ObjectTree, Command}
use gstd_1_x.Object.Sound.{IsSound, OfStore}
use gstd_1_x.Parser.Words.{Argument, null, str, wild, or_printed, of_element, with_token}
use gstd_1_x.Parser.Raw.{raw_cmd}
use gstd_1_x.Parser.Tokens.{LastNonempty, append-nonempty, strsplit-LastNonempty}
use gstd_1_x.Parser.Safety.{
  parser_rules, IsProper, with_argument-Safe, with_token-Safe, raw_read-Safe, raw_update-Safe,
  raw_delete-Safe, raw_create-Safe, raw_cmd-Safe, get_by_uri-Safe,
}
use gstd_1_x.Parser.Pipelines.{
  pipeline_create, pipeline_delete, pipeline_play, pipeline_pause, pipeline_stop, pipeline_graph,
  pipeline_verbose, list_pipelines, debug_enable, debug_threshold, debug_color, debug_reset,
}
use gstd_1_x.Parser.Elements.{
  element_set, element_get, list_elements, list_properties, list_signals, signal_connect,
  signal_timeout, signal_disconnect, action_emit, with_description,
}
use gstd_1_x.Parser.Events.{
  bus_read, bus_filter, bus_timeout, event_eos, event_seek, event_flush_start, event_flush_stop,
}

module _ (g : GLib) (t : ObjectTree) (P : t.Store → Type 0) (sound : IsSound t P) where
  open t use {Node, Store}

  -- A callback that is safe on every argument that can be looked at.
  abbrev pub OnArguments : (Argument → Command Store Unit) → Type 0
  OnArguments f = (a : Argument) → a ≢ wild → Safe (OfStore P) (f a)

  pub ruleset command_rules = (parser_rules, raw_read-Safe, raw_update-Safe, raw_delete-Safe)

  -- Without an argument, or with an empty one, the creation has no token.
  pub pipeline_create-Safe :
      (c : ℕ) (s : Text) → Safe (OfStore P) (pipeline_create g t (str (c ∷ s)))
  unfolding pipeline_create
  pipeline_create-Safe c s = raw_create-Safe g t P sound (codes "/pipelines") c s refl

  pub pipeline_delete-Safe : OnArguments (pipeline_delete g t)
  unfolding pipeline_delete
  pipeline_delete-Safe a h = search command_rules depth 9

  pub pipeline_play-Safe : OnArguments (pipeline_play g t)
  unfolding pipeline_play
  pipeline_play-Safe a h = search command_rules depth 9

  pub pipeline_pause-Safe : OnArguments (pipeline_pause g t)
  unfolding pipeline_pause
  pipeline_pause-Safe a h = search command_rules depth 9

  pub pipeline_stop-Safe : OnArguments (pipeline_stop g t)
  unfolding pipeline_stop
  pipeline_stop-Safe a h = search command_rules depth 9

  pub pipeline_graph-Safe : OnArguments (pipeline_graph g t)
  unfolding pipeline_graph
  pipeline_graph-Safe a h = search command_rules depth 9

  pub pipeline_verbose-Safe : OnArguments (pipeline_verbose g t)
  unfolding pipeline_verbose
  pipeline_verbose-Safe a h = search command_rules depth 9

  pub list_pipelines-Safe : OnArguments (list_pipelines g t)
  unfolding list_pipelines
  list_pipelines-Safe a h = search command_rules depth 9

  pub debug_enable-Safe : OnArguments (debug_enable g t)
  unfolding debug_enable
  debug_enable-Safe a h = search command_rules depth 9

  pub debug_threshold-Safe : OnArguments (debug_threshold g t)
  unfolding debug_threshold
  debug_threshold-Safe a h = search command_rules depth 9

  pub debug_color-Safe : OnArguments (debug_color g t)
  unfolding debug_color
  debug_color-Safe a h = search command_rules depth 9

  pub debug_reset-Safe : OnArguments (debug_reset g t)
  unfolding debug_reset
  debug_reset-Safe a h = search command_rules depth 9

  pub element_set-Safe : OnArguments (element_set g t)
  unfolding element_set
  element_set-Safe a h = search command_rules depth 9

  pub element_get-Safe : OnArguments (element_get g t)
  unfolding element_get
  element_get-Safe a h = search command_rules depth 9

  pub list_elements-Safe : OnArguments (list_elements g t)
  unfolding list_elements
  list_elements-Safe a h = search command_rules depth 9

  pub list_properties-Safe : OnArguments (list_properties g t)
  unfolding list_properties
  list_properties-Safe a h = search command_rules depth 9

  pub list_signals-Safe : OnArguments (list_signals g t)
  unfolding list_signals
  list_signals-Safe a h = search command_rules depth 9

  pub signal_connect-Safe : OnArguments (signal_connect g t)
  unfolding signal_connect
  signal_connect-Safe a h = search command_rules depth 9

  pub signal_timeout-Safe : OnArguments (signal_timeout g t)
  unfolding signal_timeout
  signal_timeout-Safe a h = search command_rules depth 9

  pub signal_disconnect-Safe : OnArguments (signal_disconnect g t)
  unfolding signal_disconnect
  signal_disconnect-Safe a h = search command_rules depth 9

  emitted_text-Safe :
      (a b c x : Text) {rest : Text}
      → rest ≡ codes "/actions/" ++ (c ++ (space ∷ x))
      → x ≢ []
      → Safe (OfStore P) (raw_cmd g t (some (codes "create")) (str (of_element a b rest)))
  emitted_text-Safe a b c [] e h = absurd (h refl)
  emitted_text-Safe a b c (d ∷ r) e h = rw e (
      raw_create-Safe g t P sound
        (codes "/pipelines/" ++ (a ++ (codes "/elements/" ++ (b ++ (codes "/actions/" ++ c))))) d r
        (simp append_assoc))

  nonempty-append : (c s : Text) → c ≢ [] → c ++ s ≢ []
  nonempty-append [] s h e = h refl
  nonempty-append (d ∷ c) s h e = cc

  -- What the tokens of the argument are emitted as.
  abbrev emitted : List Text → Command Store Unit
  emitted tokens = with_token (get_elem? tokens 0) bad_command λ a.
      with_token (get_elem? tokens 1) bad_command λ b.
        with_token (get_elem? tokens 2) bad_command λ c. raw_cmd g t (some (codes "create")) (
          str (
            of_element a b
              (codes "/actions/" ++ c ++ space ∷ c ++ with_description g t (get_elem? tokens 3))))

  -- The name of the action is the third token, and is not empty, or is followed by a description.
  emitted-Safe :
      (tokens : List Text)
      → LastNonempty tokens
      → length tokens ≤ 4
      → Safe (OfStore P) (emitted tokens)
  emitted-Safe [] h n = absurd h
  emitted-Safe (a ∷ []) h n = Safe-return _
  emitted-Safe (a ∷ b ∷ []) h n = Safe-return _
  emitted-Safe (a ∷ b ∷ c ∷ []) h n =
      emitted_text-Safe a b c (c ++ []) (simp append_assoc) (nonempty-append c [] h)
  emitted-Safe (a ∷ b ∷ c ∷ [] ∷ []) h n = absurd (h refl)
  emitted-Safe (a ∷ b ∷ c ∷ (e ∷ d) ∷ []) h n =
      emitted_text-Safe a b c (c ++ space ∷ e ∷ d) (simp append_assoc)
        (append-nonempty c space (e ∷ d))
  emitted-Safe (a ∷ b ∷ c ∷ d ∷ e ∷ ts) h n = absurd (omega arith)

  pub action_emit-Safe :
      (a : Argument) → IsProper g t P sound a → Safe (OfStore P) (action_emit g t a)
  unfolding action_emit
  action_emit-Safe null h = Safe-return _
  action_emit-Safe (str line) h =
      let (last, few) = strsplit-LastNonempty g 3 line h in
      emitted-Safe (g.strsplit line space 4) last few
  action_emit-Safe wild h = absurd h

  pub bus_read-Safe : OnArguments (bus_read g t)
  unfolding bus_read
  bus_read-Safe a h = search command_rules depth 9

  pub bus_filter-Safe : OnArguments (bus_filter g t)
  unfolding bus_filter
  bus_filter-Safe a h = search command_rules depth 9

  pub bus_timeout-Safe : OnArguments (bus_timeout g t)
  unfolding bus_timeout
  bus_timeout-Safe a h = search command_rules depth 9

  pub event_eos-Safe : OnArguments (event_eos g t)
  unfolding event_eos
  event_eos-Safe a h = with_argument-Safe g t P sound a _ _ h λ p.
      raw_create-Safe g t P sound (codes "/pipelines/" ++ (p ++ codes "/event")) 101 (codes "os")
        (simp append_assoc)

  pub event_seek-Safe : OnArguments (event_seek g t)
  unfolding event_seek
  event_seek-Safe a h = with_argument-Safe g t P sound a _ _ h λ line.
      with_token-Safe g t P sound _ _ _ λ p.
        raw_create-Safe g t P sound (codes "/pipelines/" ++ (p ++ codes "/event")) 115
          (codes "eek " ++ or_printed g.printf_null (get_elem? (g.strsplit line space 2) 1))
          (simp append_assoc)

  pub event_flush_start-Safe : OnArguments (event_flush_start g t)
  unfolding event_flush_start
  event_flush_start-Safe a h = with_argument-Safe g t P sound a _ _ h λ p.
      raw_create-Safe g t P sound (codes "/pipelines/" ++ (p ++ codes "/event")) 102
        (codes "lush_start") (simp append_assoc)

  pub event_flush_stop-Safe : OnArguments (event_flush_stop g t)
  unfolding event_flush_stop
  event_flush_stop-Safe a h = with_argument-Safe g t P sound a _ _ h λ line.
      with_token-Safe g t P sound _ _ _ λ p.
        raw_create-Safe g t P sound (codes "/pipelines/" ++ (p ++ codes "/event")) 102
          (codes "lush_stop " ++ or_printed g.printf_null (get_elem? (g.strsplit line space 2) 1))
          (simp append_assoc)
