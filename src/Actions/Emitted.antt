-- ===== src/Actions/Emitted.antt =====
-- What becomes of the description that an action of gstd_action.c is created with.
use gstd_1_x.Base.{
  ◌≡◌, ◌≢◌, ◌⊎◌, ◌<◌, ◌^◌, ◌%◌, ℤ, pos, negsuc, map, to_lower, text_eq, true, inl, inr, refl, ap,
  Text, codes, List, [], ◌∷◌, Option, none, some, false, Bool-cases, ◌&&◌, ◌==◌, ==_iff, length,
  All, if◌then◌else◌, text_eq_iff, arith,
}
use gstd_1_x.ReturnCode.{ReturnCode, eok, null_argument}
use gstd_1_x.GLib.{GLib}
use gstd_1_x.GLib.Words.{unwords, IsWord, unwords-nonempty, strsplit_all-unwords}
use gstd_1_x.Actions.{
  ParamType, Argument, Signals, is_missing, argument, int_of_int64, arguments, arg_list, emitted,
  counted, some_params, create_default,
}

-- The words of a list that may be missing.
abbrev pub given : Option (List Text) → List Text
given none = []
given (some words) = words

module _ {Object W : Type 0} (g : GLib) (calls : Signals Object W) where
  open calls use {Double, strtoll, strtoull, strtod, to_float, param_types, emitv}

  -- The action has been emitted, once, with as many arguments as it has parameters, which the words
  -- stand for; or nothing has been done, and the code says so.
  abbrev pub EmitsOnce : Object → Text → List ParamType → List Text → W → ReturnCode × W → Type 0
  EmitsOnce target action types words w (code, w') =
      ((code ≡ eok)
        × (args : List (Argument Double)) × ((length words ≡ length types)
            × (arguments g calls types words ≡ some args)
            × (w' ≡ emitv target action args w)))
      ⊎ ((code ≢ eok) × (w' ≡ w))

  emitted-EmitsOnce :
      (target : Object) (action : Text) (types : List ParamType) (words : List Text)
      (args : Option (List (Argument Double))) (w : W)
      → length words ≡ length types
      → arguments g calls types words ≡ args
      → EmitsOnce target action types words w (emitted g calls target action args w)
  emitted-EmitsOnce target action types words none w n e = inr (λ c. cc, refl)
  emitted-EmitsOnce target action types words (some args) w n e = inl (refl, args, (n, e, refl))

  tested-EmitsOnce :
      (target : Object) (action : Text) (types : List ParamType) (words : List Text) (w : W)
      → EmitsOnce target action types words w (
          if length words == length types
          then emitted g calls target action (arguments g calls types words) w
          else (null_argument, w))
  tested-EmitsOnce target action types words w = elim (Bool-cases (length words == length types)) [
    | inl e ↦
        let same = (==_iff (length words) (length types)).0 e in
        rw e (emitted-EmitsOnce target action types words _ w same refl)
    | inr e ↦ rw e (inr (λ c. cc, refl))
  ]

  counted-EmitsOnce :
      (target : Object) (action : Text) (types : List ParamType) (list : Option (List Text)) (w : W)
      → EmitsOnce target action types (given list) w (counted g calls target action types list w)
  unfolding arguments
  counted-EmitsOnce target action [] none w = inl (refl, [], (refl, refl, refl))
  counted-EmitsOnce target action (type ∷ types) none w = inr (λ c. cc, refl)
  counted-EmitsOnce target action [] (some words) w = tested-EmitsOnce target action [] words w
  counted-EmitsOnce target action (type ∷ types) (some words) w =
      tested-EmitsOnce target action (type ∷ types) words w

  -- Whatever an action is created with: it is emitted once, with the code EOK, and its arguments are
  -- those that the words of the description stand for; or there is another code, and it is not
  -- emitted.
  pub create_default-EmitsOnce :
      (target : Object) (action : Text) (name description : Option Text) (w : W)
      → EmitsOnce target action
          (param_types target action)
          (given (arg_list g calls description))
          w
          (create_default g calls target action name description w)
  unfolding create_default
  create_default-EmitsOnce target action none description w = inr (λ c. cc, refl)
  create_default-EmitsOnce target action (some name) description w =
      let types = param_types target action in
      elim (Bool-cases (some_params types && is_missing description)) [
        | inl e ↦ rw e (inr (λ c. cc, refl))
        | inr e ↦ rw e (counted-EmitsOnce target action types (arg_list g calls description) w)
      ]

  not_missing : (s : Text) → s ≢ codes "(null)" → s ≢ [] → is_missing (some s) ≡ false
  unfolding is_missing
  not_missing s h k = ground (arith, text_eq_iff s (codes "(null)"), text_eq_iff s (codes ""))

  described :
      (types : List ParamType) (ws : List Text)
      → All IsWord ws
      → unwords ws ≢ codes "(null)"
      → length ws ≡ length types
      → (some_params types && is_missing (some (unwords ws))) ≡ false
  described [] ws h k n = refl
  described (type ∷ types) [] h k n = absurd (omega arith)
  described (type ∷ types) (v ∷ ws) h k n = not_missing _ k (unwords-nonempty v ws h.0.0)

  counted_lem :
      (target : Object) (action : Text) (types : List ParamType) (ws : List Text)
      (args : List (Argument Double)) (w : W)
      → length ws ≡ length types
      → arguments g calls types ws ≡ some args
      → counted g calls target action types (some ws) w ≡ (eok, emitv target action args w)
  counted_lem target action [] ws args w n e =
      rw ((==_iff (length ws) 0).1 n) (ap (λ a. emitted g calls target action a w) e)
  counted_lem target action (type ∷ types) ws args w n e =
      rw ((==_iff (length ws) (length (type ∷ types))).1 n)
        (ap (λ a. emitted g calls target action a w) e)

  -- The numbers of a gint.
  abbrev IsGint : ℤ → Type 0
  IsGint (pos n) = n < 2 ^ 31
  IsGint (negsuc n) = n < 2 ^ 31

  -- What a word stands for as an argument of a type: the text itself; the number that C reads, if it is
  -- one of the type; true for "true" in any case of its letters, and false for all else.
  pub data StandsFor : ParamType → Text → Argument Double → Type 0 where
    text : (s : Text) → StandsFor ParamType.string s (Argument.string s)
    int_number :
        (s : Text) → IsGint (strtoll s) → StandsFor ParamType.int s (Argument.int (strtoll s))
    uint_number :
        (s : Text) → strtoull s < 2 ^ 32 → StandsFor ParamType.uint s (Argument.uint (strtoull s))
    uint64_number : (s : Text) → StandsFor ParamType.uint64 s (Argument.uint64 (strtoull s))
    yes :
        (s : Text)
        → map to_lower s ≡ codes "true"
        → StandsFor ParamType.boolean s (Argument.boolean true)
    no :
        (s : Text)
        → map to_lower s ≢ codes "true"
        → StandsFor ParamType.boolean s (Argument.boolean false)
    float_number : (s : Text) → StandsFor ParamType.float s (Argument.float (to_float (strtod s)))
    double_number : (s : Text) → StandsFor ParamType.double s (Argument.double (strtod s))

  -- Each word for the argument in its place, of the type in its place.
  pub data AllStandFor : List ParamType → List Text → List (Argument Double) → Type 0 where
    none_left : AllStandFor [] [] []
    next :
        {type : ParamType} {w : Text} {a : Argument Double} {types : List ParamType}
        {ws : List Text} {args : List (Argument Double)}
        → StandsFor type w a
        → AllStandFor types ws args
        → AllStandFor (type ∷ types) (w ∷ ws) (a ∷ args)

  kept_int : (n : ℤ) → IsGint n → int_of_int64 n ≡ n
  unfolding int_of_int64
  kept_int (pos n) h = ground arith
  kept_int (negsuc n) h = ground arith

  argument-StandsFor :
      {type : ParamType} {w : Text} {a : Argument Double}
      → StandsFor type w a
      → argument g calls type w ≡ some a
  unfolding argument
  argument-StandsFor (text s) = refl
  argument-StandsFor (int_number s h) = rw (kept_int (strtoll s) h) refl
  argument-StandsFor (uint_number s h) =
      let kept : strtoull s % 2 ^ 32 ≡ strtoull s = omega arith in rw kept refl
  argument-StandsFor (uint64_number s) = refl
  argument-StandsFor (yes s h) = rw (g.strcasecmp_some s (codes "true"), h) refl
  argument-StandsFor (no s h) =
      let other : text_eq (map to_lower s) (codes "true") ≡ false =
        ground (arith, text_eq_iff (map to_lower s) (codes "true")) in
      rw (g.strcasecmp_some s (codes "true"), other) refl
  argument-StandsFor (float_number s) = refl
  argument-StandsFor (double_number s) = refl

  arguments-AllStandFor :
      {types : List ParamType} {ws : List Text} {args : List (Argument Double)}
      → AllStandFor types ws args
      → (arguments g calls types ws ≡ some args) × (length ws ≡ length types)
  unfolding arguments
  arguments-AllStandFor none_left = (refl, refl)
  arguments-AllStandFor (next h hs) =
      let (rest, same) = arguments-AllStandFor hs in
      (rw (argument-StandsFor h, rest) refl, omega (arith, same))

  -- A description of words with one space between any two is emitted, once, with the arguments that the
  -- words stand for, and the code EOK; if each word stands for an argument of the type of the
  -- parameter in its place, there are as many words as parameters, and the description is not the text
  -- "(null)".
  pub create_default-unwords :
      (target : Object) (action name : Text) (ws : List Text) (args : List (Argument Double))
      (w : W)
      → All IsWord ws
      → unwords ws ≢ codes "(null)"
      → AllStandFor (param_types target action) ws args
      → create_default g calls target action (some name) (some (unwords ws)) w
        ≡ (eok, emitv target action args w)
  unfolding create_default
  create_default-unwords target action name ws args w h k l =
      let types = param_types target action in
      let (e, n) = arguments-AllStandFor l in
      rw (described types ws h k n)
        (rw (strsplit_all-unwords g ws h) (counted_lem target action types ws args w n e))
