-- ===== src/Examples/Listed.antt =====
-- The lists of an element with a pad, of a class with a signal and an action.
use gstd_1_x.Base.{Text, codes, List, [], ◌∷◌, none, true, false}
use gstd_1_x.Printing.{ParamSpec}
use gstd_1_x.Elements.{
  Node, Children, node, no_children, no_object, child, SignalInfo, Lists, signal_name, new_lists,
  set_gstelement,
}

abbrev pub width : ParamSpec
width = record { name = codes "width"; value_type = codes "gint"; flags = 3; blurb = none }

abbrev pads : Children Text
pads = no_object (child (node (codes "pad") (codes "src") (width ∷ []) no_children) no_children)

abbrev camera : Node Text
camera = node (codes "camera") (codes "camera0") (width ∷ []) pads

abbrev types : List (List SignalInfo)
types =
    (record { signal_name = codes "snap"; is_action = true } ∷ [])
    ∷ (record { signal_name = codes "taken"; is_action = false }
        ∷ record { signal_name = codes "snap"; is_action = true }
        ∷ [])
    ∷ []

abbrev pub camera_lists : Lists Text
camera_lists = set_gstelement camera types new_lists
