-- ===== src/Actions.antt =====
-- libgstd/gstd_action.c: an action of an element is emitted when it is created, with the words of the
-- description for arguments.
pub mod Emitted
use gstd_1_x.Base.{
  ℕ, ◌-◌, ◌%◌, ◌^◌, Text, codes, Bool, true, false, ◌||◌, ◌&&◌, List, [], ◌∷◌, ◌==◌, Option, none,
  some, length, ltb, ℤ, pos, negsuc, space, text_eq, if◌then◌else◌,
}
use gstd_1_x.ReturnCode.{ReturnCode, eok, null_argument, bad_command}
use gstd_1_x.GLib.{GLib}

-- The GType of a parameter, as far as it is told apart.
pub data ParamType : Type 0 where
  string int uint uint64 boolean float double : ParamType
  other : ParamType

-- A GValue of such a type.
pub data Argument (Double : Type 0) : Type 0 where
  string : Text → Argument Double
  int : ℤ → Argument Double
  uint : ℕ → Argument Double
  uint64 : ℕ → Argument Double
  boolean : Bool → Argument Double
  float : Double → Argument Double
  double : Double → Argument Double

-- The numbers of C, and g_signal_emitv on an object.
pub record Signals (Object W : Type 0) : Type 1 where
  pub Double : Type 0
  -- g_ascii_strtoll (s, NULL, 10), g_ascii_strtoull (s, NULL, 10) and g_ascii_strtod (s, NULL)
  pub strtoll : Text → ℤ
  pub strtoull : Text → ℕ
  pub strtod : Text → Double
  -- The conversion of a double to gfloat; a float is known by the double of its value.
  pub to_float : Double → Double
  -- The types of the parameters of the action of a name, from g_signal_lookup and g_signal_query.
  pub param_types : Object → Text → List ParamType
  -- What is returned is not looked at.
  pub emitv : Object → Text → List (Argument Double) → W → W

-- The conversion of a gint64 to gint.
unfoldable pub int_of_int64 : ℤ → ℤ
int_of_int64 (pos n) =
    let low = n % 2 ^ 32 in if ltb low (2 ^ 31) then pos low else negsuc (2 ^ 32 - 1 - low)
int_of_int64 (negsuc n) =
    let low = n % 2 ^ 32 in if ltb low (2 ^ 31) then negsuc low else pos (2 ^ 32 - 1 - low)

-- A description that stands for no arguments.
unfoldable pub is_missing : Option Text → Bool
is_missing none = true
is_missing (some description) =
    text_eq description (codes "(null)") || text_eq description (codes "")

-- query.n_params > 0
abbrev pub some_params : List ParamType → Bool
some_params [] = false
some_params (type ∷ types) = true

module _ {Object W : Type 0} (g : GLib) (calls : Signals Object W) where
  open calls use {Double, strtoll, strtoull, strtod, to_float, param_types, emitv}

  -- The value of an argument; there is none for a type that is not known.
  unfoldable pub argument : ParamType → Text → Option (Argument Double)
  argument ParamType.string s = some (Argument.string s)
  argument ParamType.int s = some (Argument.int (int_of_int64 (strtoll s)))
  argument ParamType.uint s = some (Argument.uint (strtoull s % 2 ^ 32))
  argument ParamType.uint64 s = some (Argument.uint64 (strtoull s))
  argument ParamType.boolean s = some (Argument.boolean (g.strcasecmp s (some (codes "true"))))
  argument ParamType.float s = some (Argument.float (to_float (strtod s)))
  argument ParamType.double s = some (Argument.double (strtod s))
  argument ParamType.other s = none

  abbrev pub consed :
      Option (Argument Double) → Option (List (Argument Double)) → Option (List (Argument Double))
  consed (some a) (some rest) = some (a ∷ rest)
  consed a rest = none

  -- The loop over the parameters, with as many words; it ends at the first type that is not known.
  unfoldable pub arguments : List ParamType → List Text → Option (List (Argument Double))
  arguments [] words = some []
  arguments (type ∷ types) [] = none
  arguments (type ∷ types) (w ∷ words) = consed (argument type w) (arguments types words)

  -- arg_list, if there is a description.
  abbrev pub arg_list : Option Text → Option (List Text)
  arg_list none = none
  arg_list (some description) = some (g.strsplit_all description space)

  abbrev pub emitted : Object → Text → Option (List (Argument Double)) → W → ReturnCode × W
  emitted target name none w = (bad_command, w)
  emitted target name (some args) w = (eok, emitv target name args w)

  -- The tests of the number of words, and what follows them.
  abbrev pub counted : Object → Text → List ParamType → Option (List Text) → W → ReturnCode × W
  counted target name [] none w = emitted target name (some []) w
  counted target name (type ∷ types) none w = (null_argument, w)
  counted target name types (some words) w =
      if length words == length types
      then emitted target name (arguments types words) w
      else (null_argument, w)

  -- gstd_action_create_default, of an action of a name on its target.
  unfoldable pub create_default : Object → Text → Option Text → Option Text → W → ReturnCode × W
  create_default target action none description w = (null_argument, w)
  create_default target action (some name) description w =
      let types = param_types target action in
      if some_params types && is_missing description
      then (null_argument, w)
      else counted target action types (arg_list description) w
