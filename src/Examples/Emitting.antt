-- ===== src/Examples/Emitting.antt =====
-- Actions that are emitted and properties that are set, on a world that records it.
use gstd_1_x.Base.{ℕ, ◌≡◌, refl, Text, codes, true, false, List, [], ◌∷◌, none, some, pos, arith}
use gstd_1_x.ReturnCode.{eok}
use gstd_1_x.GLib.Reference.{reference}
use gstd_1_x.GLib.Words.{unwords}
use gstd_1_x.Printing.{ParamSpec, PropertyClass, Property}
use gstd_1_x.Actions.{ParamType, Argument, Signals, arg_list, create_default}
use gstd_1_x.Actions.Emitted.{
  given, EmitsOnce, create_default-EmitsOnce, create_default-unwords, text, uint_number, next,
  none_left,
}
use gstd_1_x.Updates.{Setting, number, Setters, signed, update}
use gstd_1_x.Updates.Outcomes.{SetsOnce, update-SetsOnce, update-Meant, by_signed}
use gstd_1_x.Examples.Wire.{numeral}

-- What has been emitted, the last first.
abbrev Log : Type 0
Log = List (Text × List (Argument ℕ))

-- An object is its name. All actions take a string and an unsigned number.
abbrev signals : Signals Text Log
signals = record {
  Double = ℕ;
  strtoll = λ s. pos (numeral 0 s);
  strtoull = numeral 0;
  strtod = numeral 0;
  to_float = λ d. d;
  param_types = λ o n. ParamType.string ∷ ParamType.uint ∷ [];
  emitv = λ o n args w. (n, args) ∷ w;
}

abbrev words : List Text
words = codes "L" ∷ codes "25" ∷ []

create_default-EmitsOnce_example :
    EmitsOnce reference signals
      (codes "scope")
      (codes "move")
      (ParamType.string ∷ ParamType.uint ∷ [])
      (given (arg_list reference signals (some (unwords words))))
      []
      (create_default reference signals
        (codes "scope")
        (codes "move")
        (some (codes "move"))
        (some (unwords words))
        [])
create_default-EmitsOnce_example =
    create_default-EmitsOnce reference signals (codes "scope") (codes "move") (some (codes "move"))
      (some (unwords words)) []

create_default-unwords_example :
    create_default reference signals
      (codes "scope")
      (codes "move")
      (some (codes "move"))
      (some (unwords words))
      []
    ≡ (eok, (codes "move", Argument.string (codes "L") ∷ Argument.uint 25 ∷ []) ∷ [])
create_default-unwords_example =
    create_default-unwords reference signals (codes "scope") (codes "move") (codes "move") words
      (Argument.string (codes "L") ∷ Argument.uint 25 ∷ []) []
      ((λ e. cc, (omega arith, tt)), ((λ e. cc, (omega arith, (omega arith, tt))), tt)) (λ e. cc)
      (next (text (codes "L")) (next (uint_number (codes "25") (omega arith)) none_left))

abbrev speed : ParamSpec
speed = record { name = codes "speed"; value_type = codes "gint"; flags = 3; blurb = none }

-- What has been set, the last first.
abbrev setters : Setters Text (List (Text × Setting ℕ))
setters = record {
  Double = ℕ;
  find_property = λ o n. some speed;
  int_type = λ p. signed;
  strtoll = λ s. (pos (numeral 0 s), false);
  strtoull = λ s. (numeral 0 s, false);
  atof = numeral 0;
  value_by_name = λ p s. none;
  value_by_nick = λ p s. none;
  deserializes = λ p s. true;
  set = λ o n s w. (n, s) ∷ w;
}

abbrev speed_of_fan : Property Text
speed_of_fan = record {
  class = PropertyClass.int;
  name = codes "speed";
  target = codes "fan";
  pspec = none;
}

update-SetsOnce_example :
    SetsOnce reference setters PropertyClass.int speed_of_fan
      (codes "12")
      []
      (update reference setters PropertyClass.int speed_of_fan (codes "12") [])
update-SetsOnce_example =
    update-SetsOnce reference setters PropertyClass.int speed_of_fan (codes "12") [] (λ e f. cc)

update-Meant_example :
    update reference setters PropertyClass.int speed_of_fan (codes "12") []
    ≡ some (eok, (codes "speed", number (pos 12)) ∷ [])
update-Meant_example =
    update-Meant reference setters PropertyClass.int speed_of_fan (codes "12") (codes "speed")
      (number (pos 12)) [] (by_signed refl refl refl)
