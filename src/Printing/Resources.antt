-- ===== src/Printing/Resources.antt =====
-- The resources that are printed through a formatter alone, with the to_string of each class.
use gstd_1_x.Base.{Text, Option, none, some}
use gstd_1_x.ReturnCode.{ReturnCode, eok, missing_initialization}
use gstd_1_x.Formatter.{IFormatter}
use gstd_1_x.Printing.{
  ParamSpec, Objects, Property, Callback, Writer, generated, property_pspec, write_object,
  write_property, write_state, write_action, write_callback,
}
use gstd_1_x.Printing.Messages.{Message, write_message}

-- An object without a to_string of its own, a property, a state by its name, what it is serialized
-- to and the name of its type, an action of an object, a callback, and the message of a bus.
pub data Resource (Double Object : Type 0) : Type 0 where
  object : Object → Resource Double Object
  property : Property Object → Resource Double Object
  state : Option Text → Option Text → Text → Resource Double Object
  action : Object → Text → Resource Double Object
  callback : Callback Double → Resource Double Object
  message : Option (Message Double) → Resource Double Object

module _ {Double : Type 0} (f : IFormatter Double) (g : Objects Double) where
  abbrev written : Writer f → Option (ReturnCode × Option Text)
  written w = some (eok, some (generated f w))

  abbrev pub written_property :
      Property g.Object → Option ParamSpec → Option (ReturnCode × Option Text)
  written_property self none = none
  written_property self (some pspec) = written (write_property f g self pspec)

  abbrev pub written_message : Option (Message Double) → Option (ReturnCode × Option Text)
  written_message none = some (missing_initialization, none)
  written_message (some target) = written (write_message f target)

  -- The code and the text, if there is one; none where NULL is dereferenced.
  unfoldable pub to_string : Resource Double g.Object → Option (ReturnCode × Option Text)
  to_string (object o) = written (write_object f g o)
  to_string (property p) = written_property p (property_pspec g p)
  to_string (state name svalue typename) = written (write_state f g name svalue typename)
  to_string (action target name) = written (write_action f g target name)
  to_string (callback c) = written (write_callback f c)
  to_string (message m) = written_message m
