-- ===== src/Client/Json.antt =====
-- libgstc/c/libgstc_json.c: what the client reads off a response. The parser of JSON is Jansson, a
-- library of its own.
use gstd_1_x.Base.{ℤ, Text, Bool, List, [], ◌∷◌, Option, none, some, if◌then◌else◌}
use gstd_1_x.Client.{Status, ok, type_error, malformed, not_found}

pub record Jansson : Type 1 where
  pub Json : Type 0
  -- json_loads; nothing stands for NULL.
  pub loads : Text → Option Json
  -- json_object_get, which returns NULL for what is no object too.
  pub object_get : Json → Text → Option Json
  pub is_object : Json → Bool
  pub is_array : Json → Bool
  pub is_integer : Json → Bool
  pub is_string : Json → Bool
  pub is_null : Json → Bool
  -- json_integer_value, as an int
  pub integer_value : Json → ℤ
  pub string_value : Json → Text
  -- json_array_get at every index below json_array_size
  pub items : Json → List Json

module _ (j : Jansson) where
  open j use {Json}

  -- What is returned, and what is written to the output argument.
  abbrev pub Reading : Type 0 → Type 0
  Reading A = Status × Option A

  abbrev found_in : Option Json → Text → Reading Json
  found_in none name = (malformed, none)
  found_in (some root) name = elim (j.object_get root name) [
    | none ↦ (not_found, none)
    | some data_ ↦ (ok, some data_)
  ]

  -- gstc_json_get_value
  unfoldable pub get_value : Text → Text → Reading Json
  get_value json name = found_in (j.loads json) name

  -- What is done with the value, if there is one.
  abbrev pub on_value : {A : Type 0} → (Json → Reading A) → Reading Json → Reading A
  on_value f (status, none) = (status, none)
  on_value f (status, some v) = f v

  -- gstc_json_get_int
  unfoldable pub get_int : Text → Text → Reading ℤ
  unfolding get_value
  get_int json name =
      on_value (λ v. if j.is_integer v then (ok, some (j.integer_value v)) else (type_error, none))
        (get_value json name)

  -- gstc_json_is_null
  unfoldable pub is_null : Text → Text → Reading Bool
  unfolding get_value
  is_null json name = on_value (λ v. (ok, some (j.is_null v))) (get_value json name)

  abbrev pub string_of : Option Json → Reading Text
  string_of none = (not_found, none)
  string_of (some v) = if j.is_string v then (ok, some (j.string_value v)) else (type_error, none)

  -- gstc_json_child_string
  unfoldable pub child_string : Text → Text → Text → Reading Text
  unfolding get_value
  child_string json parent_name data_name =
      on_value (λ parent. string_of (j.object_get parent data_name)) (get_value json parent_name)

  -- The name of one item of the array; json_is_string is false of NULL.
  abbrev pub name_of : Text → Json → Option Text
  name_of element_name item =
      if j.is_object item
      then elim (j.object_get item element_name) [
        | none ↦ none
        | some v ↦ if j.is_string v then some (j.string_value v) else none
      ]
      else none

  abbrev pub consed : Option Text → Option (List Text) → Option (List Text)
  consed none rest = none
  consed (some s) none = none
  consed (some s) (some rest) = some (s ∷ rest)

  -- The loop over the items: one that has no name ends it, and all copies are freed.
  unfoldable pub names_of : Text → List Json → Option (List Text)
  names_of element_name [] = some []
  names_of element_name (item ∷ items) =
      consed (name_of element_name item) (names_of element_name items)

  abbrev pub array_of : Option (List Text) → Reading (List Text)
  array_of none = (type_error, none)
  array_of (some names) = (ok, some names)

  -- json_is_array is false of NULL.
  abbrev pub in_array : Text → Option Json → Reading (List Text)
  in_array element_name none = (type_error, none)
  in_array element_name (some v) =
      if j.is_array v then array_of (names_of element_name (j.items v)) else (type_error, none)

  -- gstc_json_get_child_char_array
  unfoldable pub get_child_char_array : Text → Text → Text → Text → Reading (List Text)
  unfolding get_value names_of
  get_child_char_array json parent_name array_name element_name =
      on_value
        (λ parent.
          if j.is_object parent
          then in_array element_name (j.object_get parent array_name)
          else (type_error, none))
        (get_value json parent_name)
