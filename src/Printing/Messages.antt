-- ===== src/Printing/Messages.antt =====
-- The messages of a bus: gstd_bus_msg_factory_make and gstd_bus_msg_to_string of
-- libgstd/gstd_bus_msg.c, and what libgstd/gstd_bus_msg_simple.c, gstd_bus_msg_qos.c,
-- gstd_bus_msg_stream_status.c, gstd_bus_msg_element.c, gstd_bus_msg_state_changed.c and
-- gstd_bus_msg_notify.c add to it.
use gstd_1_x.Base.{
  ℕ, ◌-◌, ◌^◌, Text, codes, List, [], Option, none, some, Bool, ltb, ◌==◌, if◌then◌else◌, ℤ, pos,
  negsuc,
}
use gstd_1_x.ReturnCode.{ReturnCode, eok, event_error, bad_command}
use gstd_1_x.Formatter.{GValue, IFormatter, ◌⊳◌, boolean, int, uint64, int64, double}
use gstd_1_x.Printing.{Writer, string_member, value_member, for_each}

-- GstMessageType, as far as the factory tells the types apart.
pub data MessageType : Type 0 where
  error warning info qos stream_status element state_changed property_notify : MessageType
  unhandled : MessageType

-- gst_message_parse_qos, gst_message_parse_qos_values and gst_message_parse_qos_stats
pub record Qos (Double : Type 0) : Type 0 where
  pub live : Bool
  pub running_time : ℕ
  pub stream_time : ℕ
  pub timestamp : ℕ
  pub duration : ℕ
  pub jitter : ℤ
  pub proportion : Double
  pub quality : ℤ
  pub format : ℕ
  pub processed : ℕ
  pub dropped : ℕ

-- gst_message_parse_stream_status, with the names of the owner and of its factory.
pub record StreamStatus : Type 0 where
  pub type : ℕ
  pub owner : Option Text
  pub factory : Option Text

-- gst_message_parse_property_notify, with the path of the object and the contents of the value.
pub record PropertyNotify : Type 0 where
  pub object_name : Option Text
  pub property_name : Option Text
  pub value : Option Text

-- GstMessage: what all have, and what GStreamer parses out of one. The names of the three states of
-- state_changed are those that gst_element_state_get_name gives.
pub record Message (Double : Type 0) : Type 0 where
  pub type : MessageType
  pub type_name : Option Text
  pub source : Option Text
  pub timestamp : Text
  pub seqnum : ℕ
  -- The message and the debug string of an error, a warning or an info.
  pub parsed : Option (Text × Option Text)
  pub qos_values : Qos Double
  pub status : StreamStatus
  pub structure : Option (Text × List (Text × GValue Double))
  pub oldstate : Option Text
  pub newstate : Option Text
  pub pending : Option Text
  pub notify : PropertyNotify

-- The subclasses of GstdBusMsg.
pub data Class : Type 0 where
  plain simple qos stream_status element state_changed notify : Class

-- gstd_bus_msg_factory_make: the class of what is made for a message.
unfoldable pub factory_make : MessageType → Class
factory_make MessageType.error = Class.simple
factory_make MessageType.warning = Class.simple
factory_make MessageType.info = Class.simple
factory_make MessageType.qos = Class.qos
factory_make MessageType.stream_status = Class.stream_status
factory_make MessageType.element = Class.element
factory_make MessageType.state_changed = Class.state_changed
factory_make MessageType.property_notify = Class.notify
factory_make MessageType.unhandled = Class.plain

-- gstd_bus_msg_stream_status_code_to_string, on the values that GStreamer gives to the enumerators.
unfoldable pub stream_status_code_to_string : ℕ → Text
stream_status_code_to_string type =
    if type == 0
    then codes "GST_STREAM_STATUS_TYPE_CREATE"
    else if type == 1
    then codes "GST_STREAM_STATUS_TYPE_ENTER"
    else if type == 2
    then codes "GST_STREAM_STATUS_TYPE_LEAVE"
    else if type == 3
    then codes "GST_STREAM_STATUS_TYPE_DESTROY"
    else if type == 8
    then codes "GST_STREAM_STATUS_TYPE_START"
    else if type == 9
    then codes "GST_STREAM_STATUS_TYPE_PAUSE"
    else if type == 10
    then codes "GST_STREAM_STATUS_TYPE_STOP"
    else codes "UNKNOWN"

-- The conversion of a guint32 to gint.
unfoldable pub as_int : ℕ → ℤ
as_int n = if ltb n (2 ^ 31) then pos n else negsuc (2 ^ 32 - 1 - n)

-- debug ? debug : ""
abbrev pub or_empty : Option Text → Text
or_empty none = []
or_empty (some s) = s

-- The contents of the value of a property, or what stands for none.
abbrev pub or_no_value : Option Text → Text
or_no_value none = codes "(no value)"
or_no_value (some s) = s

module _ {Double : Type 0} (f : IFormatter Double) where
  open f use {State, begin_object, end_object, set_member_name, set_value}

  -- What a subclass returns, and what it has written.
  abbrev pub Result : Type 0
  Result = ReturnCode × Writer f

  -- gstd_bus_msg_simple_to_string: an error that GStreamer does not parse ends it early.
  abbrev pub simple_parsed : Option (Text × Option Text) → Result
  simple_parsed none = (event_error, λ s. s)
  simple_parsed (some (message, debug)) = (
    eok,
    string_member f (codes "message") (some message)
        ⊳ string_member f (codes "debug") (some (or_empty debug)),
  )

  unfoldable pub simple_to_string : MessageType → Option (Text × Option Text) → Result
  simple_to_string MessageType.error parsed = simple_parsed parsed
  simple_to_string MessageType.warning parsed = simple_parsed parsed
  simple_to_string MessageType.info parsed = simple_parsed parsed
  simple_to_string _ parsed = (event_error, λ s. s)

  -- gstd_bus_msg_qos_to_string
  unfoldable pub qos_to_string : Qos Double → Result
  qos_to_string q = (
    eok,
    set_member_name (codes "buffer")
        ⊳ begin_object
        ⊳ value_member f (codes "live") (boolean q.live)
        ⊳ value_member f (codes "running_time") (uint64 q.running_time)
        ⊳ value_member f (codes "stream_time") (uint64 q.stream_time)
        ⊳ value_member f (codes "timestamp") (uint64 q.timestamp)
        ⊳ value_member f (codes "duration") (uint64 q.duration)
        ⊳ end_object
        ⊳ set_member_name (codes "values")
        ⊳ begin_object
        ⊳ value_member f (codes "jitter") (int64 q.jitter)
        ⊳ value_member f (codes "proportion") (double q.proportion)
        ⊳ value_member f (codes "quality") (int q.quality)
        ⊳ end_object
        ⊳ set_member_name (codes "stats")
        ⊳ begin_object
        ⊳ value_member f (codes "format") (int (pos q.format))
        ⊳ value_member f (codes "processed") (uint64 q.processed)
        ⊳ value_member f (codes "dropped") (uint64 q.dropped)
        ⊳ end_object,
  )

  -- gstd_bus_msg_stream_status_to_string
  unfoldable pub stream_status_to_string : StreamStatus → Result
  stream_status_to_string st = (
    eok,
    set_member_name (codes "stream_status")
        ⊳ begin_object
        ⊳ value_member f (codes "type") (int (pos st.type))
        ⊳ string_member f (codes "type_name") (some (stream_status_code_to_string st.type))
        ⊳ string_member f (codes "owner") st.owner
        ⊳ string_member f (codes "owner_factory") st.factory
        ⊳ end_object,
  )

  unfoldable pub field_member : Text × GValue Double → Writer f
  field_member (name, value) = value_member f name value

  -- gstd_bus_msg_element_to_string: the structure is not mandatory.
  unfoldable pub element_to_string : Option (Text × List (Text × GValue Double)) → Result
  element_to_string none = (eok, λ s. s)
  element_to_string (some (name, fields)) =
      (eok, set_member_name name ⊳ begin_object ⊳ for_each f field_member fields ⊳ end_object)

  -- gstd_bus_msg_state_changed_to_string
  unfoldable pub state_changed_to_string : Message Double → Result
  state_changed_to_string target = (
    eok,
    string_member f (codes "oldstate") target.oldstate
        ⊳ string_member f (codes "newstate") target.newstate
        ⊳ string_member f (codes "pending") target.pending,
  )

  -- gstd_bus_msg_notify_to_string: what it returns is still what it began with.
  unfoldable pub notify_to_string : MessageType → PropertyNotify → Result
  notify_to_string MessageType.property_notify n = (
    bad_command,
    string_member f (codes "object-name") n.object_name
        ⊳ string_member f (codes "property_name") n.property_name
        ⊳ string_member f (codes "message") (some (or_no_value n.value)),
  )
  notify_to_string _ n = (event_error, λ s. s)

  -- The to_string of the class of a message; GstdBusMsg itself has none.
  unfoldable pub class_to_string : Class → Message Double → Result
  class_to_string Class.plain target = (eok, λ s. s)
  class_to_string Class.simple target = simple_to_string target.type target.parsed
  class_to_string Class.qos target = qos_to_string target.qos_values
  class_to_string Class.stream_status target = stream_status_to_string target.status
  class_to_string Class.element target = element_to_string target.structure
  class_to_string Class.state_changed target = state_changed_to_string target
  class_to_string Class.notify target = notify_to_string target.type target.notify

  -- gstd_bus_msg_to_string, of what the factory makes: what the class returns is not looked at.
  unfoldable pub write_message : Message Double → Writer f
  write_message target =
      begin_object
      ⊳ string_member f (codes "type") target.type_name
      ⊳ string_member f (codes "source") target.source
      ⊳ string_member f (codes "timestamp") (some target.timestamp)
      ⊳ value_member f (codes "seqnum") (int (as_int target.seqnum))
      ⊳ (class_to_string (factory_make target.type) target).1
      ⊳ end_object
