-- ===== src/Formatter.antt =====
-- libgstd/gstd_iformatter.c, the interface that resources are printed through, and
-- libgstd/gstd_json_builder.c, which fills it with calls of JSON-GLib's JsonBuilder.
pub mod Documents
use gstd_1_x.Base.{
  ℕ, ◌-◌, ◌^◌, Text, codes, List, [], ◌∷◌, ◌++◌, Option, none, some, Bool, ltb, if◌then◌else◌, ℤ,
  pos, negsuc,
}

-- A GValue by its type. `contents` has another type, of which only the text of
-- g_strdup_value_contents is used; `Double` is the type of gfloat and gdouble.
pub data GValue (Double : Type 0) : Type 0 where
  boolean : Bool → GValue Double
  int : ℤ → GValue Double
  uint : ℕ → GValue Double
  int64 : ℤ → GValue Double
  uint64 : ℕ → GValue Double
  float : Double → GValue Double
  double : Double → GValue Double
  string : Option Text → GValue Double
  contents : Text → GValue Double

-- A call of JsonBuilder.
pub data Call (Double : Type 0) : Type 0 where
  begin_object : Call Double
  end_object : Call Double
  begin_array : Call Double
  end_array : Call Double
  set_member_name : Text → Call Double
  add_string_value : Option Text → Call Double
  add_null_value : Call Double
  add_boolean_value : Bool → Call Double
  add_int_value : ℤ → Call Double
  add_double_value : Double → Call Double

-- GstdIFormatterInterface, over the state of a formatter. `fresh` is that of a new one.
pub record IFormatter (Double : Type 0) : Type 1 where
  pub State : Type 0
  pub fresh : State
  pub begin_object : State → State
  pub end_object : State → State
  pub begin_array : State → State
  pub end_array : State → State
  pub set_member_name : Text → State → State
  pub set_string_value : Option Text → State → State
  pub set_null_value : State → State
  pub set_value : GValue Double → State → State
  pub generate : State → Text × State

-- One call after the other.
infixr 2 ◌⊳◌
abbrev pub ◌⊳◌ : {S : Type 0} → (S → S) → (S → S) → S → S
(v ⊳ w) s = w (v s)

-- The conversion of a guint64 to gint64.
unfoldable pub as_int64 : ℕ → ℤ
as_int64 n = if ltb n (2 ^ 63) then pos n else negsuc (2 ^ 64 - 1 - n)

module _ {Double : Type 0} where
  -- A call is recorded behind those before.
  abbrev pub record_call : Call Double → List (Call Double) → List (Call Double)
  record_call c s = s ++ c ∷ []

  -- gstd_json_set_string_value: NULL becomes the empty string.
  unfoldable pub json_set_string_value : Option Text → List (Call Double) → List (Call Double)
  json_set_string_value (some value) = record_call (add_string_value (some value))
  json_set_string_value none = record_call (add_string_value (some []))

  -- gstd_json_set_value
  unfoldable pub json_set_value : GValue Double → List (Call Double) → List (Call Double)
  json_set_value (boolean b) = record_call (add_boolean_value b)
  json_set_value (int n) = record_call (add_int_value n)
  json_set_value (uint n) = record_call (add_int_value (pos n))
  json_set_value (int64 n) = record_call (add_int_value n)
  json_set_value (uint64 n) = record_call (add_int_value (as_int64 n))
  json_set_value (float d) = record_call (add_double_value d)
  json_set_value (double d) = record_call (add_double_value d)
  json_set_value (string s) = record_call (add_string_value s)
  json_set_value (contents s) = record_call (add_string_value (some s))

  -- gstd_json_builder_generate: the root is printed, and the builder reset. What JSON-GLib prints
  -- for calls of its builder is a parameter.
  unfoldable pub json_builder_generate :
      (List (Call Double) → Text) → List (Call Double) → Text × List (Call Double)
  json_builder_generate to_data s = (to_data s, [])

  -- GstdJsonBuilder
  abbrev pub json_builder : (List (Call Double) → Text) → IFormatter Double
  json_builder to_data = record {
    State = List (Call Double);
    fresh = [];
    begin_object = record_call begin_object;
    end_object = record_call end_object;
    begin_array = record_call begin_array;
    end_array = record_call end_array;
    set_member_name = λ name. record_call (set_member_name name);
    set_string_value = json_set_string_value;
    set_null_value = record_call add_null_value;
    set_value = json_set_value;
    generate = json_builder_generate to_data;
  }
