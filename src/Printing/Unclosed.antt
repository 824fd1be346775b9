-- ===== src/Printing/Unclosed.antt =====
-- gstd_element_to_string of libgstd/gstd_element.c: the document of an element's lists stands behind the
-- text of the parent class, whose bracket is never closed.
use mathlib.Core.Path.{subst}
use gstd_1_x.Base.{◌≡◌, refl, Text, codes, List, [], ◌∷◌, map, Option, none, some}
use gstd_1_x.Formatter.{Call, json_builder, json_builder_generate}
use gstd_1_x.Formatter.Documents.{Json, Members, member, calls}
use gstd_1_x.Printing.{ParamSpec, Objects, Property, generated, query_members, write_object}
use gstd_1_x.Printing.Writes.{
  text, value_json, object, array, Writes, for_each-Writes, writing, json_set_string_value-Writes,
}
use gstd_1_x.Printing.Described.{parameter_json, query_json, describe-Writes, write_object-Writes}
use gstd_1_x.Printing.Elements.{
  describe_property, properties_to_string, describe_signal, signals_to_string_internal,
  write_internal, internal_to_string, joined, element_to_string,
}
use gstd_1_x.Printing.Brackets.{
  plain, scan, IsBalanced, EndsInBracket, scan-append, scan-lift, cut-open, some-injective,
}
use gstd_1_x.Elements.{Signal, Lists}

-- The documented output of JSON-GLib for an object with members: it is balanced, and ends on a bracket
-- in a line of its own when it is asked to be pretty.
abbrev pub PrintsObjects : {Double : Type 0} → (List (Call Double) → Text) → Type 0
PrintsObjects {Double} to_data =
    (k : Text) (v : Json Double) (ms : Members Double)
    → let t = to_data (calls (Json.object (member k v ms))) in IsBalanced t × EndsInBracket t

module _ {Double : Type 0} (g : Objects Double) (to_data : List (Call Double) → Text) where
  open g use {get_property, signal_query}

  abbrev property_item : Property g.Object × ParamSpec → Json Double
  property_item (p, pspec) =
      parameter_json g p.name (value_json (get_property p.target pspec.name)) pspec

  abbrev signal_item : g.Object → Signal g.Object → Json Double
  signal_item element s = query_json (signal_query element s.name)

  -- The document of the lists of an element.
  abbrev pub internal_json :
      g.Object → Lists g.Object → List (Property g.Object × ParamSpec) → Json Double
  internal_json element self ps = object (
      (codes "element_properties", array (map property_item ps))
      ∷ (codes "element_signals", array (map (signal_item element) self.element_signals.nodes))
      ∷ (codes "element_actions", array (map (signal_item element) self.element_actions.nodes))
      ∷ [])

  describe_property-Writes :
      (p : Property g.Object × ParamSpec)
      → Writes (describe_property g (json_builder to_data) p) (calls (property_item p))
  unfolding describe_property
  describe_property-Writes (p, pspec) = describe-Writes to_data g p.target p.name pspec

  describe_signal-Writes :
      (element : g.Object) (s : Signal g.Object)
      → Writes (describe_signal g (json_builder to_data) element s) (calls (signal_item element s))
  unfolding describe_signal query_members calls
  describe_signal-Writes element s c =
      simp (writing, for_each-Writes to_data _ text json_set_string_value-Writes)

  pub write_internal-Writes :
      (element : g.Object) (self : Lists g.Object) (ps : List (Property g.Object × ParamSpec))
      → Writes
          (write_internal g (json_builder to_data) element self ps)
          (calls (internal_json element self ps))
  unfolding write_internal properties_to_string signals_to_string_internal calls
  write_internal-Writes element self ps s = simp (
    writing,
    for_each-Writes to_data _ property_item describe_property-Writes,
    for_each-Writes to_data _ (signal_item element) (describe_signal-Writes element),
  )

  own-IsBalanced :
      (object : g.Object)
      → PrintsObjects to_data
      → let t = generated (json_builder to_data) (write_object (json_builder to_data) g object) in
        IsBalanced t × EndsInBracket t
  unfolding generated json_builder_generate
  own-IsBalanced object h = rw (write_object-Writes to_data g object []) (h _ _ _)

  internal-IsBalanced :
      (element : g.Object) (self : Lists g.Object) (ps : List (Property g.Object × ParamSpec))
      → PrintsObjects to_data
      → IsBalanced (internal_to_string g to_data element self ps)
  unfolding internal_to_string generated json_builder_generate
  internal-IsBalanced element self ps h = rw (write_internal-Writes element self ps []) (h _ _ _).0

  joined-open :
      (internal : List (Property g.Object × ParamSpec) → Text) (c : Option Text)
      (qs : Option (List (Property g.Object × ParamSpec))) (t : Text)
      → ((p : Text) → c ≡ some p → scan p (plain 0) ≡ plain 1)
      → ((ps : List (Property g.Object × ParamSpec)) → IsBalanced (internal ps))
      → joined g internal c qs ≡ some t
      → scan t (plain 0) ≡ plain 1
  unfolding scan
  joined-open internal none qs t h k e = cc
  joined-open internal (some p) none t h k e = cc
  joined-open internal (some p) (some ps) t h k e =
      let raised = scan-lift (internal ps) (plain 0) (λ b. cc (k ps)) in
      subst (λ t. scan t (plain 0) ≡ plain 1) (some-injective _ _ e)
        (simp (scan-append, h p refl, raised, k ps))

  -- The text of an element has a bracket that is not closed at its end, whatever the element and its
  -- lists, if JSON-GLib prints objects as documented.
  pub element_to_string-open :
      (element object : g.Object) (self : Lists g.Object) (t : Text)
      → PrintsObjects to_data
      → element_to_string g to_data element object self ≡ some t
      → scan t (plain 0) ≡ plain 1
  unfolding element_to_string
  element_to_string-open element object self t h e =
      let (balanced, ends) = own-IsBalanced object h in
      joined-open (internal_to_string g to_data element self) _ _ t
        (λ p. cut-open _ p balanced ends) (λ ps. internal-IsBalanced element self ps h) e
