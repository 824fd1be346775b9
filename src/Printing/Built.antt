-- ===== src/Printing/Built.antt =====
-- Every resource as it is printed: a JSON builder takes all that is written, and is left with the
-- document of the resource.
use mathlib.Core.Option
use mathlib.Core.Path.{subst}
use gstd_1_x.Base.{◌≡◌, ap, Text, List, [], Option, none, some}
use gstd_1_x.ReturnCode.{ReturnCode, eok}
use gstd_1_x.Formatter.{Call, json_builder, json_builder_generate}
use gstd_1_x.Formatter.Documents.{Json, calls, build, build-calls}
use gstd_1_x.Printing.{Objects, Property, ParamSpec, generated, property_pspec}
use gstd_1_x.Printing.Writes.{Writes}
use gstd_1_x.Printing.Described.{
  object_json, write_object-Writes, property_json, write_property-Writes, state_json,
  write_state-Writes, query_json, write_action-Writes, callback_json, write_callback-Writes,
}
use gstd_1_x.Printing.Documents.{message_json, write_message-Writes}
use gstd_1_x.Printing.Messages.{Message}
use gstd_1_x.Printing.Resources
use gstd_1_x.Printing.Resources.{Resource, to_string, written_property, written_message}

module _ {Double : Type 0} (g : Objects Double) where
  -- What a resource is printed as: nothing if it is a property of an unknown parameter, or wraps no
  -- message.
  abbrev pub document : Resource Double g.Object → Option (Json Double)
  document (Resources.object o) = some (object_json g o)
  document (Resources.property p) = Option.map (property_json g p) (property_pspec g p)
  document (Resources.state name svalue typename) = some (state_json g name svalue typename)
  document (Resources.action target name) = some (query_json (g.signal_query target name))
  document (Resources.callback c) = some (callback_json c)
  document (Resources.message m) = Option.map message_json m

  module _ (to_data : List (Call Double) → Text) where
    -- The code is EOK, and what JSON-GLib generates from is a document.
    abbrev pub PrintsAs : Option (ReturnCode × Option Text) → Json Double → Type 0
    PrintsAs r j =
        (cs : List (Call Double)) × ((r ≡ some (eok, some (to_data cs))) × (build cs ≡ some j))

    generated-PrintsAs :
        {w : List (Call Double) → List (Call Double)} (j : Json Double)
        → Writes w (calls j)
        → PrintsAs (some (eok, some (generated (json_builder to_data) w))) j
    unfolding generated json_builder_generate
    generated-PrintsAs j h =
        (calls j, (ap (λ cs. some (eok, some (to_data cs))) (h []), build-calls j))

    property-PrintsAs :
        (p : Property g.Object) (pspec : Option ParamSpec) (j : Json Double)
        → Option.map (property_json g p) pspec ≡ some j
        → PrintsAs (written_property (json_builder to_data) g p pspec) j
    property-PrintsAs p none j e = cc
    property-PrintsAs p (some pspec) j e =
        let printed = generated-PrintsAs _ (write_property-Writes to_data g p pspec) in
        subst (PrintsAs _) (cc e) printed

    message-PrintsAs :
        (m : Option (Message Double)) (j : Json Double)
        → Option.map message_json m ≡ some j
        → PrintsAs (written_message (json_builder to_data) g m) j
    message-PrintsAs none j e = cc
    message-PrintsAs (some m) j e =
        subst (PrintsAs _) (cc e) (generated-PrintsAs _ (write_message-Writes to_data m))

    -- A resource that has a document is printed with the code EOK, from calls that a JSON builder takes
    -- and that come to this document.
    pub to_string-PrintsAs :
        (r : Resource Double g.Object) (j : Json Double)
        → document r ≡ some j
        → PrintsAs (to_string (json_builder to_data) g r) j
    unfolding to_string
    to_string-PrintsAs (Resources.object o) j e =
        subst (PrintsAs _) (cc e) (generated-PrintsAs _ (write_object-Writes to_data g o))
    to_string-PrintsAs (Resources.property p) j e = property-PrintsAs p (property_pspec g p) j e
    to_string-PrintsAs (Resources.state name svalue typename) j e =
        subst (PrintsAs _) (cc e)
          (generated-PrintsAs _ (write_state-Writes to_data g name svalue typename))
    to_string-PrintsAs (Resources.action target name) j e =
        subst (PrintsAs _) (cc e) (generated-PrintsAs _ (write_action-Writes to_data g target name))
    to_string-PrintsAs (Resources.callback c) j e =
        subst (PrintsAs _) (cc e) (generated-PrintsAs _ (write_callback-Writes to_data c))
    to_string-PrintsAs (Resources.message m) j e = message-PrintsAs m j e
