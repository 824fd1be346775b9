-- ===== src/Printing/Described.antt =====
-- The documents that resources are printed as: what each class writes is a JSON document with the
-- members that its clients read, whatever the names, values and messages are.
use gstd_1_x.Base.{
  refl, Text, codes, List, [], ◌∷◌, map, Option, some, if◌then◌else◌, Bool-cases, inl, inr,
}
use gstd_1_x.Formatter.{GValue, Call, json_builder, json_set_value}
use gstd_1_x.Formatter.Documents.{Json, calls}
use gstd_1_x.Printing.{
  ParamSpec, Objects, SignalQuery, PropertyClass, query_members, describe, float_item,
  array_add_value, add_value, is_readable, write_object, Property, Callback, property_value,
  write_property, write_state, write_action, write_callback, argument, readwrite,
}
use gstd_1_x.Printing.Writes.{
  text, value_json, object, array, Writes, json_set_string_value-Writes, json_set_value-Writes,
  for_each-Writes, param_json, writing, param_member-Writes,
}

module _ {Double : Type 0} where
  abbrev pub query_json : SignalQuery → Json Double
  query_json query = object (
      (codes "name", text query.signal_name)
      ∷ (codes "arguments", array (map text query.param_types))
      ∷ (codes "return", text query.return_type)
      ∷ [])

  abbrev pub argument_json : Text × GValue Double → Json Double
  argument_json (type, value) =
      object ((codes "type", text (some type)) ∷ (codes "value", value_json value) ∷ [])

  abbrev pub callback_json : Callback Double → Json Double
  callback_json self = object (
      (codes "name", text self.signal_name)
      ∷ (codes "arguments", array (map argument_json self.param_values))
      ∷ [])

module _ {Double : Type 0} (g : Objects Double) where
  open g use {
    get_property, list_properties, flags_contents, signal_query, value_serialize, boxed_floats,
  }

  -- What is told of a parameter of an object.
  abbrev pub parameter_json : Text → Json Double → ParamSpec → Json Double
  parameter_json name value pspec = object (
      (codes "name", text (some name))
      ∷ (codes "value", value)
      ∷ (codes "param", param_json pspec.blurb pspec.value_type (flags_contents pspec.flags))
      ∷ [])

  abbrev pub own_parameter : g.Object → ParamSpec → Json Double
  own_parameter self pspec =
      parameter_json pspec.name (value_json (get_property self pspec.name)) pspec

  abbrev pub object_json : g.Object → Json Double
  object_json self =
      object ((codes "properties", array (map (own_parameter self) (list_properties self))) ∷ [])

  -- What the class of a property adds for a value.
  abbrev pub class_json : PropertyClass → GValue Double → Json Double
  class_json PropertyClass.boolean value = value_json value
  class_json PropertyClass.int value = value_json value
  class_json PropertyClass.string value = value_json value
  class_json PropertyClass.array value = array (map Json.double (boxed_floats value))
  class_json PropertyClass.basic value = text (value_serialize value)
  class_json PropertyClass.enum value = text (value_serialize value)
  class_json PropertyClass.flags value = text (value_serialize value)

  -- The value of a property, if it can be read.
  abbrev pub readable_json : Property g.Object → ParamSpec → Json Double
  readable_json self pspec =
      if is_readable pspec
      then class_json self.class (get_property self.target pspec.name)
      else Json.null

  abbrev pub property_json : Property g.Object → ParamSpec → Json Double
  property_json self pspec = parameter_json pspec.name (readable_json self pspec) pspec

  abbrev pub state_json : Option Text → Option Text → Text → Json Double
  state_json name svalue typename = object (
      (codes "name", text name)
      ∷ (codes "value", text svalue)
      ∷ (
        codes "param",
        param_json (some (codes "The state of the pipeline")) typename (flags_contents readwrite),
      )
      ∷ [])

module _ {Double : Type 0} (to_data : List (Call Double) → Text) where
  float_item-Writes :
      (d : Double) → Writes (float_item (json_builder to_data) d) (calls (Json.double d))
  unfolding float_item calls json_set_value
  float_item-Writes d s = refl

  argument-Writes :
      (a : Text × GValue Double)
      → Writes (argument (json_builder to_data) a) (calls (argument_json a))
  unfolding argument calls
  argument-Writes (type, value) s = simp writing

  pub write_callback-Writes :
      (self : Callback Double)
      → Writes (write_callback (json_builder to_data) self) (calls (callback_json self))
  unfolding write_callback calls
  write_callback-Writes self s =
      simp (writing, for_each-Writes to_data _ argument_json argument-Writes)

module _ {Double : Type 0} (to_data : List (Call Double) → Text) (g : Objects Double) where
  open g use {
    get_property, list_properties, flags_contents, signal_query, value_serialize, boxed_floats,
  }

  pub describe-Writes :
      (target : g.Object) (name : Text) (pspec : ParamSpec)
      → let value = value_json (get_property target pspec.name) in
        Writes
          (describe (json_builder to_data) g target name pspec)
          (calls (parameter_json g name value pspec))
  unfolding describe calls
  describe-Writes target name pspec s = simp (writing, param_member-Writes to_data)

  pub write_object-Writes :
      (self : g.Object)
      → Writes (write_object (json_builder to_data) g self) (calls (object_json g self))
  unfolding write_object calls
  write_object-Writes self s = simp (
    writing,
    for_each-Writes to_data _ (own_parameter g self)
        (λ pspec. describe-Writes self pspec.name pspec),
  )

  add_value-Writes :
      (class : PropertyClass) (value : GValue Double)
      → Writes (add_value (json_builder to_data) g class value) (calls (class_json g class value))
  unfolding add_value array_add_value calls
  add_value-Writes PropertyClass.boolean value = json_set_value-Writes value
  add_value-Writes PropertyClass.int value = json_set_value-Writes value
  add_value-Writes PropertyClass.string value = json_set_value-Writes value
  add_value-Writes PropertyClass.array value =
      λ s. simp (writing, for_each-Writes to_data _ Json.double (float_item-Writes to_data))
  add_value-Writes PropertyClass.basic value = json_set_string_value-Writes (value_serialize value)
  add_value-Writes PropertyClass.enum value = json_set_string_value-Writes (value_serialize value)
  add_value-Writes PropertyClass.flags value = json_set_string_value-Writes (value_serialize value)

  property_value-Writes :
      (self : Property g.Object) (pspec : ParamSpec)
      → Writes
          (property_value (json_builder to_data) g self pspec)
          (calls (readable_json g self pspec))
  unfolding property_value calls
  property_value-Writes self pspec s = elim (Bool-cases (is_readable pspec)) [
    | inl e ↦ rw e (add_value-Writes self.class (get_property self.target pspec.name) s)
    | inr e ↦ rw e refl
  ]

  pub write_property-Writes :
      (self : Property g.Object) (pspec : ParamSpec)
      → Writes
          (write_property (json_builder to_data) g self pspec)
          (calls (property_json g self pspec))
  unfolding write_property calls
  write_property-Writes self pspec s =
      simp (writing, param_member-Writes to_data, property_value-Writes self pspec)

  pub write_state-Writes :
      (name : Option Text) (svalue : Option Text) (typename : Text)
      → Writes
          (write_state (json_builder to_data) g name svalue typename)
          (calls (state_json g name svalue typename))
  unfolding write_state calls
  write_state-Writes name svalue typename s = simp (writing, param_member-Writes to_data)

  pub write_action-Writes :
      (target : g.Object) (name : Text)
      → Writes
          (write_action (json_builder to_data) g target name)
          (calls (query_json (signal_query target name)))
  unfolding write_action query_members calls
  write_action-Writes target name s =
      simp (writing, for_each-Writes to_data _ text json_set_string_value-Writes)
