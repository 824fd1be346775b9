-- ===== src/Examples/Printed.antt =====
-- Resources that are printed, by a generator that writes a dot for each call between two brackets.
use gstd_1_x.Base.{ℕ, ◌≡◌, refl, Text, codes, List, [], ◌∷◌, ◌++◌, none, some, false, pos}
use gstd_1_x.Formatter.{
  Call, GValue, json_builder, json_builder_generate, json_set_value, json_set_string_value,
}
use gstd_1_x.Formatter.Documents.{Json, member, calls}
use gstd_1_x.Printing.{
  Objects, generated, write_object, describe, param_member, query_members, property_pspec,
}
use gstd_1_x.Printing.Messages
use gstd_1_x.Printing.Messages.{Message}
use gstd_1_x.Printing.Documents.{message_json}
use gstd_1_x.Printing.Resources
use gstd_1_x.Printing.Resources.{Resource, to_string}
use gstd_1_x.Printing.Built.{PrintsAs, to_string-PrintsAs}
use gstd_1_x.Printing.Brackets.{plain, scan, scan-append}
use gstd_1_x.Printing.Unclosed.{PrintsObjects, element_to_string-open}
use gstd_1_x.NodeList.{append_child, find_node}
use gstd_1_x.Printing.Elements.{
  element_to_string, cut, internal_to_string, write_internal, properties_to_string,
  describe_property, signals_to_string_internal, describe_signal,
}
use gstd_1_x.Elements.{
  set_gstelement, fill_properties, fill_child_properties, append_object_properties, new_property,
  property_get_type, fill_signals_and_actions, add_signals, add_signal,
}
use gstd_1_x.Examples.Listed.{width, camera_lists}

-- An object is its name, and each has the one parameter.
abbrev objects : Objects ℕ
objects = record {
  Object = Text;
  list_properties = λ o. width ∷ [];
  find_property = λ o n. some width;
  get_property = λ o n. GValue.int (pos 640);
  flags_contents = λ n. codes "rw";
  value_serialize = λ v. some (codes "640");
  boxed_floats = λ v. [];
  signal_query = λ o n. record { signal_name = some n; param_types = []; return_type = none };
}

abbrev dots : List (Call ℕ) → Text
dots [] = []
dots (c ∷ cs) = 46 ∷ dots cs

abbrev to_data : List (Call ℕ) → Text
to_data cs = (123 ∷ dots cs) ++ codes "\n}"

abbrev no_qos : Messages.Qos ℕ
no_qos = record {
  live = false;
  running_time = 0;
  stream_time = 0;
  timestamp = 0;
  duration = 0;
  jitter = pos 0;
  proportion = 0;
  quality = pos 0;
  format = 0;
  processed = 0;
  dropped = 0;
}

-- An error of a source.
abbrev failure : Message ℕ
failure = record {
  type = Messages.error;
  type_name = some (codes "error");
  source = some (codes "src");
  timestamp = codes "0:00:00";
  seqnum = 17;
  parsed = some (codes "no \"device\"", none);
  qos_values = no_qos;
  status = record { type = 0; owner = none; factory = none };
  structure = none;
  oldstate = none;
  newstate = none;
  pending = none;
  notify = record { object_name = none; property_name = none; value = none };
}

to_string-PrintsAs_example :
    PrintsAs objects to_data
      (to_string (json_builder to_data) objects (Resources.message (some failure)))
      (message_json failure)
to_string-PrintsAs_example =
    to_string-PrintsAs objects to_data (Resources.message (some failure)) (message_json failure)
      refl

scan-dots : (cs : List (Call ℕ)) → scan (dots cs) (plain 1) ≡ plain 1
unfolding scan
scan-dots [] = refl
scan-dots (c ∷ cs) = scan-dots cs

prints_objects : PrintsObjects to_data
unfolding scan
prints_objects k v ms =
    let cs = calls (Json.object (member k v ms)) in
    (simp (scan-append, scan-dots cs), (123 ∷ dots cs, refl))

-- The text of an element.
printed :
    (t : Text) × (element_to_string objects to_data (codes "camera") (codes "element") camera_lists
      ≡ some t)
unfolding element_to_string cut internal_to_string generated json_builder_generate write_object
    write_internal properties_to_string describe_property describe param_member
    signals_to_string_internal describe_signal query_members json_set_value json_set_string_value
    property_pspec set_gstelement fill_properties fill_child_properties append_object_properties
    new_property property_get_type fill_signals_and_actions add_signals add_signal append_child
    find_node
printed = (_, refl)

element_to_string-open_example : scan printed.0 (plain 0) ≡ plain 1
element_to_string-open_example =
    element_to_string-open objects to_data (codes "camera") (codes "element") camera_lists printed.0
      prints_objects printed.1
