-- ===== src/Updates.antt =====
-- The updates of properties: gstd_property_update_default of libgstd/gstd_property.c, and those of
-- gstd_property_boolean.c, gstd_property_int.c, gstd_property_string.c, gstd_property_enum.c,
-- gstd_property_flags.c and gstd_property_array.c.
pub mod Outcomes
use gstd_1_x.Base.{
  ℕ, Text, codes, Bool, true, false, ◌&&◌, ◌||◌, not, List, [], ◌∷◌, map, Option, none, some, ℤ,
  pos, is_zero, space, text_eq, if◌then◌else◌,
}
use gstd_1_x.ReturnCode.{ReturnCode, eok, bad_value, missing_initialization}
use gstd_1_x.GLib.{GLib}
use gstd_1_x.Formatter.{as_int64}
use gstd_1_x.Printing.{
  ParamSpec, PropertyClass, Property, basic, boolean, int, string, enum, flags, array,
}

-- The type of a parameter, as far as gstd_property_int_update tells types apart.
pub data IntType : Type 0 where
  signed unsigned no_integer : IntType

-- What g_object_set is given: a gboolean, a gint64, a guint64, a string, or an array of floats. A value
-- that gst_value_deserialize has made is known by its text.
pub data Setting (Double : Type 0) : Type 0 where
  truth : Bool → Setting Double
  number : ℤ → Setting Double
  characters : Text → Setting Double
  floats : List Double → Setting Double
  deserialized : Text → Setting Double

-- What GObject, GStreamer and C do. A number is read with whether errno is set.
pub record Setters (Object W : Type 0) : Type 1 where
  pub Double : Type 0
  pub find_property : Object → Text → Option ParamSpec
  pub int_type : ParamSpec → IntType
  -- g_ascii_strtoll (s, NULL, 10), g_ascii_strtoull (s, NULL, 10) and atof, after errno = 0
  pub strtoll : Text → ℤ × Bool
  pub strtoull : Text → ℕ × Bool
  pub atof : Text → Double
  -- g_enum_get_value_by_name and g_enum_get_value_by_nick
  pub value_by_name : ParamSpec → Text → Option ℤ
  pub value_by_nick : ParamSpec → Text → Option ℤ
  -- Whether gst_value_deserialize takes the text for a value of the parameter's type.
  pub deserializes : ParamSpec → Text → Bool
  -- g_object_set and g_object_set_property
  pub set : Object → Text → Setting Double → W → W

-- What an update returns, with the new world; none where NULL is dereferenced.
abbrev pub Result : Type 0 → Type 0
Result W = Option (ReturnCode × W)

module _ {Object W : Type 0} (g : GLib) (calls : Setters Object W) where
  open calls use {
    Double, find_property, int_type, strtoll, strtoull, atof, value_by_name, value_by_nick,
    deserializes, set,
  }

  -- gst_value_deserialize, and g_object_set_property of what it makes.
  abbrev pub set_deserialized : Object → ParamSpec → Text → W → Result W
  set_deserialized target pspec value w =
      if deserializes pspec value
      then some (eok, set target pspec.name (deserialized value) w)
      else some (bad_value, w)

  abbrev pub deserialize_into : Object → Option ParamSpec → Text → W → Result W
  deserialize_into target none value w = none
  deserialize_into target (some pspec) value w = set_deserialized target pspec value w

  abbrev pub or_found : Option ParamSpec → Option ParamSpec → Option ParamSpec
  or_found none found = found
  or_found (some pspec) found = some pspec

  -- gstd_property_update_default
  unfoldable pub update_default : Property Object → Text → W → Result W
  update_default self value w =
      deserialize_into self.target (or_found self.pspec (find_property self.target self.name)) value
        w

  -- gstd_property_flags_update
  unfoldable pub update_flags : Property Object → Text → W → Result W
  update_flags self value w =
      deserialize_into self.target (find_property self.target self.name) value w

  -- "true", "yes" and "1" in the one row, "false", "no" and "0" in the other.
  unfoldable pub truth_of : Text → Option Bool
  truth_of value =
      if g.strcasecmp value (some (codes "true"))
        || g.strcasecmp value (some (codes "yes"))
        || text_eq value (codes "1")
      then some true
      else if g.strcasecmp value (some (codes "false"))
          || g.strcasecmp value (some (codes "no"))
          || text_eq value (codes "0")
      then some false
      else none

  abbrev pub set_truth : Property Object → Option Bool → W → Result W
  set_truth self none w = some (bad_value, w)
  set_truth self (some b) w = some (eok, set self.target self.name (truth b) w)

  -- gstd_property_boolean_update
  unfoldable pub update_boolean : Property Object → Text → W → Result W
  update_boolean self value w = set_truth self (truth_of value) w

  -- gstd_property_string_update
  unfoldable pub update_string : Property Object → Text → W → Result W
  update_string self value w = some (eok, set self.target self.name (characters value) w)

  -- A number is refused only if it is zero and errno is set.
  abbrev pub set_parsed : Object → Text → ℤ × Bool → W → Result W
  set_parsed target name (parsed, errno) w =
      if is_zero parsed && errno
      then some (bad_value, w)
      else some (eok, set target name (number parsed) w)

  -- The conversion of a guint64 to the gint64 `parsed`.
  abbrev pub to_parsed : ℕ × Bool → ℤ × Bool
  to_parsed (n, errno) = (as_int64 n, errno)

  abbrev pub set_integer : Property Object → IntType → Text → W → Result W
  set_integer self signed value w = set_parsed self.target self.name (strtoll value) w
  set_integer self unsigned value w =
      set_parsed self.target self.name (to_parsed (strtoull value)) w
  set_integer self no_integer value w = some (eok, w)

  abbrev pub with_type : Property Object → Option ParamSpec → Text → W → Result W
  with_type self none value w = some (missing_initialization, w)
  with_type self (some pspec) value w = set_integer self (int_type pspec) value w

  -- gstd_property_int_update
  unfoldable pub update_int : Property Object → Text → W → Result W
  update_int self value w = with_type self (find_property self.target self.name) value w

  -- By name, by nick, or as a number, which the code takes to be none if it is zero and errno is set.
  abbrev pub set_enum : Object → ParamSpec → Text → Option ℤ → Option ℤ → W → Result W
  set_enum target pspec value (some e) nick w = some (eok, set target pspec.name (number e) w)
  set_enum target pspec value none (some e) w = some (eok, set target pspec.name (number e) w)
  set_enum target pspec value none none w = set_parsed target pspec.name (strtoll value) w

  abbrev pub with_enum : Object → Option ParamSpec → Text → W → Result W
  with_enum target none value w = none
  with_enum target (some pspec) value w =
      set_enum target pspec value (value_by_name pspec value) (value_by_nick pspec value) w

  -- gstd_property_enum_update
  unfoldable pub update_enum : Property Object → Text → W → Result W
  update_enum self value w = with_enum self.target (find_property self.target self.name) value w

  abbrev pub with_floats : Property Object → Option ParamSpec → Text → W → Result W
  with_floats self none value w = some (missing_initialization, w)
  with_floats self (some pspec) value w =
      some (eok, set self.target self.name (floats (map atof (g.strsplit_all value space))) w)

  -- gstd_property_array_update; g_strsplit sets no errno.
  unfoldable pub update_array : Property Object → Text → W → Result W
  update_array self value w = with_floats self (find_property self.target self.name) value w

  -- The update of a class of properties.
  unfoldable pub update : PropertyClass → Property Object → Text → W → Result W
  update basic = update_default
  update boolean = update_boolean
  update int = update_int
  update string = update_string
  update enum = update_enum
  update flags = update_flags
  update array = update_array
