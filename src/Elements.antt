-- ===== src/Elements.antt =====
-- libgstd/gstd_element.c: what an element lists when it is given its element of GStreamer: its
-- properties and those of its children, its signals and its actions.
pub mod Listed
use gstd_1_x.Base.{
  Text, codes, List, [], ◌∷◌, ◌++◌, Option, none, some, Bool, text_eq, if◌then◌else◌,
}
use gstd_1_x.NodeList.{NodeList, empty, append_or_keep}
use gstd_1_x.Printing.{ParamSpec, PropertyClass, Property, basic, array}

-- An object of GStreamer with its name, the parameters of its class, and what its GstChildProxy hands
-- out, if it is one. A child that is NULL or no GstObject is `no_object`.
mutual
  pub data Node (Object : Type 0) : Type 0 where
    node : Object → Text → List ParamSpec → Children Object → Node Object

  pub data Children (Object : Type 0) : Type 0 where
    no_children : Children Object
    no_object : Children Object → Children Object
    child : Node Object → Children Object → Children Object

-- GstdAction and GstdSignal, as far as an element fills them: a name and its element.
pub record Signal (Object : Type 0) : Type 0 where
  pub name : Text
  pub target : Object

-- GSignalQuery of one signal that a type has: its name, and whether G_SIGNAL_ACTION is set.
pub record SignalInfo : Type 0 where
  pub signal_name : Text
  pub is_action : Bool

-- struct _GstdElement, but for the element and the event handler.
pub record Lists (Object : Type 0) : Type 0 where
  pub element_properties : NodeList (Property Object)
  pub element_signals : NodeList (Signal Object)
  pub element_actions : NodeList (Signal Object)

-- gstd_element_property_get_type, which tells arrays from all else.
unfoldable pub property_get_type : Text → PropertyClass
property_get_type type = if text_eq type (codes "GArray") then array else basic

-- g_strconcat of the suffix and the name, or the name.
abbrev pub suffixed : Option Text → Text → Text
suffixed none name = name
suffixed (some suffix) name = suffix ++ name

-- The suffix of a child.
abbrev pub child_suffix : Option Text → Text → Text
child_suffix hierarchy name = suffixed hierarchy (name ++ codes "::")

module _ {Object : Type 0} where
  abbrev pub property_name : Property Object → Text
  property_name p = p.name

  abbrev pub signal_name : Signal Object → Text
  signal_name s = s.name

  -- The property that is made for a parameter.
  unfoldable pub new_property : Object → Option Text → ParamSpec → Property Object
  new_property target suffix pspec = record {
    class = property_get_type pspec.value_type;
    name = suffixed suffix pspec.name;
    target = target;
    pspec = some pspec;
  }

  -- gstd_element_append_object_properties
  unfoldable pub append_object_properties :
      List ParamSpec
      → NodeList (Property Object)
      → Object
      → Option Text
      → NodeList (Property Object)
  append_object_properties [] properties target suffix = properties
  append_object_properties (pspec ∷ pspecs) properties target suffix =
      let properties' =
        append_or_keep property_name properties (new_property target suffix pspec) in
      append_object_properties pspecs properties' target suffix

  -- gstd_element_fill_child_properties of an object, and its loop over the children.
  unfoldable mutual
    pub fill_child_properties :
        Node Object → Option Text → NodeList (Property Object) → NodeList (Property Object)
    fill_child_properties (node object name pspecs children) hierarchy properties =
        fill_children children hierarchy properties

    pub fill_children :
        Children Object → Option Text → NodeList (Property Object) → NodeList (Property Object)
    fill_children no_children hierarchy properties = properties
    fill_children (no_object rest) hierarchy properties = fill_children rest hierarchy properties
    fill_children (child (node object name pspecs children) rest) hierarchy properties =
        let suffix = child_suffix hierarchy name in
        let properties' = fill_children children (some suffix) properties in
        fill_children rest hierarchy
          (append_object_properties pspecs properties' object (some suffix))

  -- gstd_element_fill_properties
  unfoldable pub fill_properties :
      Node Object → NodeList (Property Object) → NodeList (Property Object)
  fill_properties (node object name pspecs children) properties =
      fill_child_properties (node object name pspecs children) none
        (append_object_properties pspecs properties object none)

  abbrev pub new_signal : Object → SignalInfo → Signal Object
  new_signal element query = record { name = query.signal_name; target = element }

  -- The body of the loop over the signals of a type.
  unfoldable pub add_signal : Object → SignalInfo → Lists Object → Lists Object
  add_signal element query self =
      let new = new_signal element query in
      if query.is_action
      then record self { element_actions = append_or_keep signal_name self.element_actions new }
      else record self { element_signals = append_or_keep signal_name self.element_signals new }

  unfoldable pub add_signals : Object → List SignalInfo → Lists Object → Lists Object
  add_signals element [] self = self
  add_signals element (query ∷ queries) self =
      add_signals element queries (add_signal element query self)

  -- gstd_element_fill_signals_and_actions: the signals of each type, from that of the element up
  -- through its parents.
  unfoldable pub fill_signals_and_actions :
      Object → List (List SignalInfo) → Lists Object → Lists Object
  fill_signals_and_actions element [] self = self
  fill_signals_and_actions element (queries ∷ types) self =
      fill_signals_and_actions element types (add_signals element queries self)

  -- gstd_element_init
  abbrev pub new_lists : Lists Object
  new_lists = record {
    element_properties = empty;
    element_signals = empty;
    element_actions = empty;
  }

  -- gstd_element_set_property with PROP_GSTELEMENT, of an element and the signals of its types.
  unfoldable pub set_gstelement : Node Object → List (List SignalInfo) → Lists Object → Lists Object
  set_gstelement (node object name pspecs children) types self =
      let properties = fill_properties (node object name pspecs children) self.element_properties in
      fill_signals_and_actions object types (record self { element_properties = properties })
