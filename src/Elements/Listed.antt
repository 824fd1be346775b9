-- ===== src/Elements/Listed.antt =====
-- What an element lists of its own and of its children, from gstd_element.c: each name once, and under
-- it what comes first.
use gstd_1_x.Base.{◌≡◌, codes, text_eq, Text, List, [], ◌∷◌, ◌++◌, Option, some, if◌then◌else◌}
use gstd_1_x.NodeList.{NodeList}
use gstd_1_x.NodeList.Appending.{append_all}
use gstd_1_x.Printing.{ParamSpec, Property, basic, array}
use gstd_1_x.Elements.{
  Node, Children, node, no_children, no_object, child, Signal, SignalInfo, Lists, signal_name,
  new_signal, suffixed,
}

-- The signals of a type and of its parents, one after the other.
abbrev pub all_signals : List (List SignalInfo) → List SignalInfo
all_signals [] = []
all_signals (queries ∷ types) = queries ++ all_signals types

-- The name of a property: the names of the children that lead to its object, each with "::" behind
-- it, and the name of the parameter.
abbrev spelled : List Text → Text → Text
spelled [] name = name
spelled (parent ∷ parents) name = parent ++ (codes "::" ++ spelled parents name)

-- The suffix that the code keeps stands for the children that lead there.
abbrev Spells : Option Text → List Text → Type 0
Spells suffix parents = (name : Text) → suffixed suffix name ≡ spelled parents name

module _ {Object : Type 0} where
  -- The properties of an object below such children.
  abbrev listed : Object → List Text → List ParamSpec → List (Property Object)
  listed object parents [] = []
  listed object parents (parameter ∷ parameters) =
      record {
        class = if text_eq parameter.value_type (codes "GArray") then array else basic;
        name = spelled parents parameter.name;
        target = object;
        pspec = some parameter;
      }
      ∷ listed object parents parameters

  -- The properties of what stands below an object: a child comes after what is below it.
  abbrev pub below : Children Object → List Text → List (Property Object)
  below no_children parents = []
  below (no_object rest) parents = below rest parents
  below (child (node object name pspecs children) rest) parents =
      let inner = parents ++ name ∷ [] in
      let deeper = below children inner in
      let others = below rest parents in deeper ++ listed object inner pspecs ++ others

  -- All properties of an element: its own come first.
  abbrev pub all_properties : Node Object → List (Property Object)
  all_properties (node object name pspecs children) = listed object [] pspecs ++ below children []

  -- The signals that are no actions, and those that are.
  abbrev pub to_signals : Object → List SignalInfo → List (Signal Object)
  to_signals element [] = []
  to_signals element (query ∷ queries) =
      let rest = to_signals element queries in
      if query.is_action then rest else new_signal element query ∷ rest

  abbrev pub to_actions : Object → List SignalInfo → List (Signal Object)
  to_actions element [] = []
  to_actions element (query ∷ queries) =
      let rest = to_actions element queries in
      if query.is_action then new_signal element query ∷ rest else rest

  abbrev with_all : Lists Object → Object → List SignalInfo → Lists Object
  with_all self element queries = record self {
    element_signals = append_all signal_name self.element_signals (to_signals element queries);
    element_actions = append_all signal_name self.element_actions (to_actions element queries);
  }
