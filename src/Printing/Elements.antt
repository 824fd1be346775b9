-- ===== src/Printing/Elements.antt =====
-- The texts of elements and lists: gstd_element_to_string of libgstd/gstd_element.c and
-- gstd_list_to_string of libgstd/gstd_list.c, which continue the text of gstd_object_to_string_default
-- where they cut it.
use mathlib.Core.Option
use gstd_1_x.Base.{Text, codes, List, [], ◌∷◌, ◌++◌, Option, none, some, ◌>>=◌}
use gstd_1_x.Formatter.{Call, IFormatter, ◌⊳◌, json_builder}
use gstd_1_x.Printing.{
  ParamSpec, Objects, Property, Writer, for_each, generated, describe, query_members,
  property_pspec, write_object,
}
use gstd_1_x.Elements.{Signal, Lists}

-- props[strlen (props) - 2] = '\0'; a text that is too short is written in front of.
unfoldable pub cut : Text → Option Text
cut [] = none
cut (a ∷ []) = none
cut (a ∷ b ∷ []) = some []
cut (a ∷ b ∷ c ∷ s) = Option.map (λ r. a ∷ r) (cut (b ∷ c ∷ s))

-- The separator behind a node.
abbrev pub separator : List Text → Text
separator [] = []
separator (n ∷ ns) = codes ","

-- The loop of gstd_list_to_string over the names of the nodes.
unfoldable pub print_nodes : List Text → Text → Text
print_nodes [] acc = acc
print_nodes (n ∷ ns) acc =
    print_nodes ns (acc ++ codes "{\n    \"name\" : \"" ++ n ++ codes "\"\n  }" ++ separator ns)

-- gstd_list_to_string, of the text of its parent class and the names; no text stands for a write out
-- of bounds.
unfoldable pub list_to_string : Text → List Text → Option Text
list_to_string props names =
    Option.map
      (λ cut_props. cut_props ++ codes ",\n  \"nodes\" : [" ++ print_nodes names [] ++ codes "]\n}")
      (cut props)

module _ {Double : Type 0} (g : Objects Double) where
  open g use {Object, signal_query}

  -- The parameters of the properties; if one has none, the code dereferences NULL.
  abbrev pub with_pspecs : List (Property Object) → Option (List (Property Object × ParamSpec))
  with_pspecs [] = some []
  with_pspecs (p ∷ ps) = do
    pspec ← property_pspec g p
    rest ← with_pspecs ps
    some ((p, pspec) ∷ rest)

  module _ (f : IFormatter Double) where
    open f use {begin_object, end_object, begin_array, end_array, set_member_name}

    unfoldable pub describe_property : Property Object × ParamSpec → Writer f
    describe_property (p, pspec) = describe f g p.target p.name pspec

    -- gstd_element_properties_to_string
    unfoldable pub properties_to_string : List (Property Object × ParamSpec) → Writer f
    properties_to_string ps =
        set_member_name (codes "element_properties")
        ⊳ begin_array
        ⊳ for_each f describe_property ps
        ⊳ end_array

    unfoldable pub describe_signal : Object → Signal Object → Writer f
    describe_signal element s =
        begin_object ⊳ query_members f (signal_query element s.name) ⊳ end_object

    -- gstd_element_signals_to_string_internal
    unfoldable pub signals_to_string_internal : Object → List (Signal Object) → Writer f
    signals_to_string_internal element signals =
        begin_array ⊳ for_each f (describe_signal element) signals ⊳ end_array

    -- gstd_element_internal_to_string, with gstd_element_signals_to_string and
    -- gstd_element_actions_to_string.
    unfoldable pub write_internal :
        Object → Lists Object → List (Property Object × ParamSpec) → Writer f
    write_internal element self ps =
        begin_object
        ⊳ properties_to_string ps
        ⊳ set_member_name (codes "element_signals")
        ⊳ signals_to_string_internal element self.element_signals.nodes
        ⊳ set_member_name (codes "element_actions")
        ⊳ signals_to_string_internal element self.element_actions.nodes
        ⊳ end_object

  unfoldable pub internal_to_string :
      (List (Call Double) → Text)
      → Object
      → Lists Object
      → List (Property Object × ParamSpec)
      → Text
  internal_to_string to_data element self ps =
      generated (json_builder to_data) (write_internal (json_builder to_data) element self ps)

  -- The text of the parent class as it is cut, and the internal text behind it.
  abbrev pub joined :
      (List (Property Object × ParamSpec) → Text)
      → Option Text
      → Option (List (Property Object × ParamSpec))
      → Option Text
  joined internal none ps = none
  joined internal (some props) none = none
  joined internal (some props) (some ps) = some (props ++ codes "," ++ internal ps)

  -- gstd_element_to_string, of the GStreamer element, the element itself and its lists. The internal
  -- text always comes from a JSON builder; the factory of the formatters makes no others.
  unfoldable pub element_to_string :
      (List (Call Double) → Text) → Object → Object → Lists Object → Option Text
  element_to_string to_data element object self =
      let props = generated (json_builder to_data) (write_object (json_builder to_data) g object) in
      joined (internal_to_string to_data element self) (cut props)
        (with_pspecs self.element_properties.nodes)
