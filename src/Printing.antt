-- ===== src/Printing.antt =====
-- The texts that resources are printed as: gstd_object_to_string_default (libgstd/gstd_object.c) and
-- the to_string of libgstd/gstd_property.c, gstd_state.c, gstd_callback.c and gstd_action.c. What
-- GObject knows of objects is a parameter.
pub mod Messages
pub mod Elements
pub mod Resources
pub mod Writes
pub mod Described
pub mod Documents
pub mod Built
pub mod Brackets
pub mod Unclosed
use gstd_1_x.Base.{
  ℕ, ◌/◌, ◌%◌, Text, codes, List, [], ◌∷◌, Option, none, some, Bool, ==_refl, ◌==◌, if◌then◌else◌,
  get_elem?,
}
use gstd_1_x.ReturnCode.{ReturnCode, eok}
use gstd_1_x.Formatter.{GValue, IFormatter, ◌⊳◌}

-- GParamSpec: `value_type` is the name of its type.
pub record ParamSpec : Type 0 where
  pub name : Text
  pub value_type : Text
  pub flags : ℕ
  pub blurb : Option Text

-- GSignalQuery, with the names of the types.
pub record SignalQuery : Type 0 where
  pub signal_name : Option Text
  pub param_types : List (Option Text)
  pub return_type : Option Text

-- What is asked of GObject and GStreamer about objects, at the time of printing.
pub record Objects (Double : Type 0) : Type 1 where
  pub Object : Type 0
  -- g_object_class_list_properties and g_object_class_find_property
  pub list_properties : Object → List ParamSpec
  pub find_property : Object → Text → Option ParamSpec
  pub get_property : Object → Text → GValue Double
  -- g_strdup_value_contents of a value of GSTD_TYPE_PARAM_FLAGS
  pub flags_contents : ℕ → Text
  -- gst_value_serialize
  pub value_serialize : GValue Double → Option Text
  -- The array of floats that is boxed in a value.
  pub boxed_floats : GValue Double → List Double
  -- g_signal_lookup and g_signal_query
  pub signal_query : Object → Text → SignalQuery

-- struct _GstdCallback: a value with the name of its type.
pub record Callback (Double : Type 0) : Type 0 where
  pub signal_name : Option Text
  pub param_values : List (Text × GValue Double)

-- The classes of properties, and what their add_value does: GstdPropertyBoolean, Int and String set
-- the value, GstdPropertyArray its floats, GstdProperty, GstdPropertyEnum and Flags its text.
pub data PropertyClass : Type 0 where
  basic boolean int string enum flags array : PropertyClass

-- struct _GstdProperty
pub record Property (Object : Type 0) : Type 0 where
  pub class : PropertyClass
  pub name : Text
  pub target : Object
  pub pspec : Option ParamSpec

-- G_PARAM_READABLE, the lowest bit, and G_PARAM_READWRITE.
abbrev pub is_readable : ParamSpec → Bool
is_readable pspec = pspec.flags % 2 == 1

abbrev pub readwrite : ℕ
readwrite = 3

-- The parameter of a property; without one that is known, and none of its name, the code
-- dereferences NULL.
unfoldable pub property_pspec :
    {Double : Type 0} (g : Objects Double) → Property g.Object → Option ParamSpec
property_pspec g self = elim self.pspec [
  | some pspec ↦ some pspec
  | none ↦ g.find_property self.target self.name
]

module _ {Double : Type 0} (f : IFormatter Double) where
  open f use {
    State, fresh, begin_object, end_object, begin_array, end_array, set_member_name,
    set_string_value, set_null_value, set_value, generate,
  }

  abbrev pub Writer : Type 0
  Writer = State → State

  abbrev pub string_member : Text → Option Text → Writer
  string_member name value = set_member_name name ⊳ set_string_value value

  abbrev pub value_member : Text → GValue Double → Writer
  value_member name value = set_member_name name ⊳ set_value value

  abbrev pub for_each {ℓ} : {A : Type ℓ} → (A → Writer) → List A → Writer
  for_each w [] s = s
  for_each w (x ∷ xs) s = for_each w xs (w x s)

  -- A new formatter is written to, and what it generates is handed over.
  unfoldable pub generated : Writer → Text
  generated w = (generate (w fresh)).0

  -- "param" of a parameter: its description, type and access.
  unfoldable pub param_member : Option Text → Text → Text → Writer
  param_member description type access =
      set_member_name (codes "param")
      ⊳ begin_object
      ⊳ string_member (codes "description") description
      ⊳ string_member (codes "type") (some type)
      ⊳ string_member (codes "access") (some access)
      ⊳ end_object

  -- g_value_set_string of each type's name, in an array.
  unfoldable pub query_members : SignalQuery → Writer
  query_members query =
      string_member (codes "name") query.signal_name
      ⊳ set_member_name (codes "arguments")
      ⊳ begin_array
      ⊳ for_each set_string_value query.param_types
      ⊳ end_array
      ⊳ string_member (codes "return") query.return_type

  unfoldable pub float_item : Double → Writer
  float_item d = set_value (GValue.float d)

  module _ (g : Objects Double) where
    open g use {
      Object, list_properties, get_property, flags_contents, value_serialize, boxed_floats,
      signal_query,
    }

    -- The body of a loop over parameters.
    unfoldable pub describe : Object → Text → ParamSpec → Writer
    describe target name pspec =
        begin_object
        ⊳ string_member (codes "name") (some name)
        ⊳ value_member (codes "value") (get_property target pspec.name)
        ⊳ param_member pspec.blurb pspec.value_type (flags_contents pspec.flags)
        ⊳ end_object

    -- gstd_object_to_string_default
    unfoldable pub write_object : Object → Writer
    write_object self =
        begin_object
        ⊳ set_member_name (codes "properties")
        ⊳ begin_array
        ⊳ for_each (λ pspec. describe self pspec.name pspec) (list_properties self)
        ⊳ end_array
        ⊳ end_object

    -- gstd_property_array_add_value
    unfoldable pub array_add_value : GValue Double → Writer
    array_add_value value = begin_array ⊳ for_each float_item (boxed_floats value) ⊳ end_array

    unfoldable pub add_value : PropertyClass → GValue Double → Writer
    add_value PropertyClass.boolean value = set_value value
    add_value PropertyClass.int value = set_value value
    add_value PropertyClass.string value = set_value value
    add_value PropertyClass.array value = array_add_value value
    add_value PropertyClass.basic value = set_string_value (value_serialize value)
    add_value PropertyClass.enum value = set_string_value (value_serialize value)
    add_value PropertyClass.flags value = set_string_value (value_serialize value)

    unfoldable pub property_value : Property Object → ParamSpec → Writer
    property_value self pspec =
        if is_readable pspec
        then add_value self.class (get_property self.target pspec.name)
        else set_null_value

    -- gstd_property_to_string
    unfoldable pub write_property : Property Object → ParamSpec → Writer
    write_property self pspec =
        begin_object
        ⊳ string_member (codes "name") (some pspec.name)
        ⊳ set_member_name (codes "value")
        ⊳ property_value self pspec
        ⊳ param_member pspec.blurb pspec.value_type (flags_contents pspec.flags)
        ⊳ end_object

    -- gstd_state_to_string, of the refreshed state as gst_value_serialize writes it.
    unfoldable pub write_state : Option Text → Option Text → Text → Writer
    write_state name svalue typename =
        begin_object
        ⊳ string_member (codes "name") name
        ⊳ string_member (codes "value") svalue
        ⊳ param_member (some (codes "The state of the pipeline")) typename
            (flags_contents readwrite)
        ⊳ end_object

    -- gstd_action_to_string
    unfoldable pub write_action : Object → Text → Writer
    write_action target name = begin_object ⊳ query_members (signal_query target name) ⊳ end_object

  unfoldable pub argument : Text × GValue Double → Writer
  argument (type, value) =
      begin_object
      ⊳ string_member (codes "type") (some type)
      ⊳ value_member (codes "value") value
      ⊳ end_object

  -- gstd_callback_to_string
  unfoldable pub write_callback : Callback Double → Writer
  write_callback self =
      begin_object
      ⊳ string_member (codes "name") self.signal_name
      ⊳ set_member_name (codes "arguments")
      ⊳ begin_array
      ⊳ for_each argument self.param_values
      ⊳ end_array
      ⊳ end_object
