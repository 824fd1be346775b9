-- ===== src/Printing/Writes.antt =====
-- The JSON values of what GObject knows, and the calls that a loop and a parameter come to: what the
-- documents of Printing/Described are put together from.
use gstd_1_x.Base.{
  ℕ, ◌≡◌, refl, sym, ap, ◌∙◌, Text, codes, List, [], ◌∷◌, ◌++◌, append_assoc, append-nil, map,
  Option, none, some, pos, Bool, true, false, if◌then◌else◌, Bool-cases, inl, inr,
}
use gstd_1_x.Formatter.{GValue, Call, as_int64, json_builder, json_set_value, json_set_string_value}
use gstd_1_x.Formatter.Documents.{
  Json, Items, Members, no_items, item, no_members, member, calls, item_calls,
}
use gstd_1_x.Printing.{for_each, param_member}

module _ {Double : Type 0} where
  -- A string; NULL is the empty one.
  abbrev pub text : Option Text → Json Double
  text none = Json.string (some [])
  text (some s) = Json.string (some s)

  -- The JSON value that stands for a value of GObject.
  abbrev pub value_json : GValue Double → Json Double
  value_json (GValue.boolean b) = Json.boolean b
  value_json (GValue.int n) = Json.int n
  value_json (GValue.uint n) = Json.int (pos n)
  value_json (GValue.int64 n) = Json.int n
  value_json (GValue.uint64 n) = Json.int (as_int64 n)
  value_json (GValue.float d) = Json.double d
  value_json (GValue.double d) = Json.double d
  value_json (GValue.string s) = Json.string s
  value_json (GValue.contents s) = Json.string (some s)

  abbrev pub members : List (Text × Json Double) → Members Double
  members [] = no_members
  members ((k, v) ∷ ms) = member k v (members ms)

  abbrev pub object : List (Text × Json Double) → Json Double
  object ms = Json.object (members ms)

  abbrev pub items : List (Json Double) → Items Double
  items [] = no_items
  items (x ∷ xs) = item x (items xs)

  abbrev pub array : List (Json Double) → Json Double
  array xs = Json.array (items xs)

  -- Two formatters' states with the same calls, and some more.
  abbrev pub Writes : (List (Call Double) → List (Call Double)) → List (Call Double) → Type 0
  Writes w cs = (s : List (Call Double)) → w s ≡ s ++ cs

  pub json_set_string_value-Writes :
      (o : Option Text) → Writes (json_set_string_value o) (calls (text o))
  unfolding json_set_string_value calls
  json_set_string_value-Writes none s = refl
  json_set_string_value-Writes (some t) s = refl

  pub json_set_value-Writes : (v : GValue Double) → Writes (json_set_value v) (calls (value_json v))
  unfolding json_set_value calls
  json_set_value-Writes (GValue.boolean b) s = refl
  json_set_value-Writes (GValue.int n) s = refl
  json_set_value-Writes (GValue.uint n) s = refl
  json_set_value-Writes (GValue.int64 n) s = refl
  json_set_value-Writes (GValue.uint64 n) s = refl
  json_set_value-Writes (GValue.float d) s = refl
  json_set_value-Writes (GValue.double d) s = refl
  json_set_value-Writes (GValue.string t) s = refl
  json_set_value-Writes (GValue.contents t) s = refl

  -- A loop writes an item for each round.
  pub for_each-Writes {ℓ} :
      {A : Type ℓ} (to_data : List (Call Double) → Text)
      (w : A → List (Call Double) → List (Call Double)) (j : A → Json Double)
      → ((x : A) → Writes (w x) (calls (j x)))
      → (xs : List A)
      → Writes (for_each (json_builder to_data) w xs) (item_calls (items (map j xs)))
  unfolding calls
  for_each-Writes to_data w j h [] s = sym (append-nil s)
  for_each-Writes to_data w j h (x ∷ xs) s =
      rw (for_each-Writes to_data w j h xs (w x s), h x s) (append_assoc s _ _)

  abbrev pub param_json : Option Text → Text → Text → Json Double
  param_json description type access = object (
      (codes "description", text description)
      ∷ (codes "type", text (some type))
      ∷ (codes "access", text (some access))
      ∷ [])

  pub ruleset writing = (append_assoc, json_set_string_value-Writes, json_set_value-Writes)

  module _ (to_data : List (Call Double) → Text) where
    pub param_member-Writes :
        (description : Option Text) (type access : Text)
        → Writes
            (param_member (json_builder to_data) description type access)
            (Call.set_member_name (codes "param") ∷ calls (param_json description type access))
    unfolding param_member calls
    param_member-Writes description type access s = simp writing
