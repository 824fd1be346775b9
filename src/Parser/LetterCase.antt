-- ===== src/Parser/LetterCase.antt =====
-- The letters of a command's word may be of either case.
use mathlib.Core.Path.{fun_ext}
use gstd_1_x.Base.{
  All, ◌⨾◌, Text, ◌≡◌, refl, sym, ◌∙◌, List, [], ◌∷◌, ◌++◌, map, to_lower, Option, none, some,
  space, Free,
}
use gstd_1_x.GLib.{GLib}
use gstd_1_x.Object.{ObjectTree}
use gstd_1_x.Parser.Words.{Argument, null, str, wild}
use gstd_1_x.Parser.Raw.{act, act_on, raw_cmd}
use gstd_1_x.Parser.Refs.{
  pipeline_create_ref, pipeline_delete_ref, pipeline_play_ref, pipeline_stop_ref,
}
use gstd_1_x.Parser.Dispatch.{Callback, cmds, parse_cmd}
use gstd_1_x.Parser.Requests.{pick, parse_cmd-word}

module _ (g : GLib) (t : ObjectTree) (w w' : Text) (same : map to_lower w ≡ map to_lower w') where
  act_blind : (n : Option t.Node) (a : Argument) → act g t w n a ≡ act g t w' n a
  unfolding act
  act_blind n a = simp (g.strcasecmp_some, same)

  act_on-blind : (a : Argument) → act_on g t w a ≡ act_on g t w' a
  unfolding act_on
  act_on-blind a = fun_ext (elim [ none ↦ refl | some n ↦ act_blind (some n) a ])

  -- A callback that makes no difference between the two words.
  abbrev IsBlind : Text × Callback g t → Type 0
  IsBlind (name, callback) = (args : Argument) → callback (some w) args ≡ callback (some w') args

  raw_cmd-blind : (args : Argument) → raw_cmd g t (some w) args ≡ raw_cmd g t (some w') args
  unfolding raw_cmd
  raw_cmd-blind null = refl
  raw_cmd-blind (str s) = simp act_on-blind
  raw_cmd-blind wild = refl

  pick_blind :
      (table : List (Text × Callback g t)) (args : Argument)
      → All IsBlind table
      → pick g t table w (some w) args ≡ pick g t table w' (some w') args
  pick_blind [] args h = refl
  pick_blind ((name, callback) ∷ rest) args h = rw (same, h.0 args, pick_blind rest args h.1)

  -- All but the first four callbacks do not look at the word.
  cmds-IsBlind : All IsBlind (cmds g t)
  unfolding cmds pipeline_create_ref pipeline_delete_ref pipeline_play_ref pipeline_stop_ref
  cmds-IsBlind =
      raw_cmd-blind
      ⨾ raw_cmd-blind
      ⨾ raw_cmd-blind
      ⨾ raw_cmd-blind
      ⨾ (λ a. refl)
      ⨾ (λ a. refl)
      ⨾ (λ a. refl)
      ⨾ (λ a. refl)
      ⨾ (λ a. refl)
      ⨾ (λ a. refl)
      ⨾ (λ a. refl)
      ⨾ (λ a. refl)
      ⨾ (λ a. refl)
      ⨾ (λ a. refl)
      ⨾ (λ a. refl)
      ⨾ (λ a. refl)
      ⨾ (λ a. refl)
      ⨾ (λ a. refl)
      ⨾ (λ a. refl)
      ⨾ (λ a. refl)
      ⨾ (λ a. refl)
      ⨾ (λ a. refl)
      ⨾ (λ a. refl)
      ⨾ (λ a. refl)
      ⨾ (λ a. refl)
      ⨾ (λ a. refl)
      ⨾ (λ a. refl)
      ⨾ (λ a. refl)
      ⨾ (λ a. refl)
      ⨾ (λ a. refl)
      ⨾ (λ a. refl)
      ⨾ (λ a. refl)
      ⨾ (λ a. refl)
      ⨾ (λ a. refl)
      ⨾ (λ a. refl)
      ⨾ (λ a. refl)
      ⨾ tt

-- Two words that differ only in the case of their letters are the same command, whatever follows
-- them.
pub parse_cmd-letter_case :
    (g : GLib) (t : ObjectTree) (w w' r : Text)
    → map to_lower w ≡ map to_lower w'
    → Free space w
    → Free space w'
    → parse_cmd g t (w ++ space ∷ r) ≡ parse_cmd g t (w' ++ space ∷ r)
parse_cmd-letter_case g t w w' r same h h' =
    parse_cmd-word g t w r h
    ∙ pick_blind g t w w' same (cmds g t) (str r) (cmds-IsBlind g t w w' same)
    ∙ sym (parse_cmd-word g t w' r h')
