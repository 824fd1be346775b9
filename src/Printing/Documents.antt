-- ===== src/Printing/Documents.antt =====
-- The documents of the messages of a bus, and that what their classes write comes to them.
use gstd_1_x.Base.{Text, codes, List, [], ◌∷◌, append-nil, sym, map, Option, none, some, pos}
use gstd_1_x.Formatter.{GValue, Call, as_int64, json_builder}
use gstd_1_x.Formatter.Documents.{Json, calls, member_calls}
use gstd_1_x.Printing.{for_each}
use gstd_1_x.Printing.Writes.{text, value_json, members, object, Writes, writing}
use gstd_1_x.Printing.Messages.{
  Message, MessageType, Qos, StreamStatus, factory_make, simple_parsed, as_int, or_empty,
  or_no_value, stream_status_code_to_string, simple_to_string, qos_to_string,
  stream_status_to_string, element_to_string, state_changed_to_string, notify_to_string,
  class_to_string, field_member, write_message,
}

module _ {Double : Type 0} where
  -- The members that an error, a warning or an info adds, if GStreamer parses it.
  abbrev simple_members : Option (Text × Option Text) → List (Text × Json Double)
  simple_members none = []
  simple_members (some (message, debug)) =
      (codes "message", text (some message)) ∷ (codes "debug", text (some (or_empty debug))) ∷ []

  abbrev field_json : Text × GValue Double → Text × Json Double
  field_json (name, value) = (name, value_json value)

  abbrev structure_members : Option (Text × List (Text × GValue Double)) → List (Text × Json Double)
  structure_members none = []
  structure_members (some (name, fields)) = (name, object (map field_json fields)) ∷ []

  abbrev qos_members : Qos Double → List (Text × Json Double)
  qos_members q =
      (
        codes "buffer",
        object (
            (codes "live", Json.boolean q.live)
            ∷ (codes "running_time", Json.int (as_int64 q.running_time))
            ∷ (codes "stream_time", Json.int (as_int64 q.stream_time))
            ∷ (codes "timestamp", Json.int (as_int64 q.timestamp))
            ∷ (codes "duration", Json.int (as_int64 q.duration))
            ∷ []),
      )
      ∷ (
        codes "values",
        object (
            (codes "jitter", Json.int q.jitter)
            ∷ (codes "proportion", Json.double q.proportion)
            ∷ (codes "quality", Json.int q.quality)
            ∷ []),
      )
      ∷ (
        codes "stats",
        object (
            (codes "format", Json.int (pos q.format))
            ∷ (codes "processed", Json.int (as_int64 q.processed))
            ∷ (codes "dropped", Json.int (as_int64 q.dropped))
            ∷ []),
      )
      ∷ []

  abbrev stream_status_members : StreamStatus → List (Text × Json Double)
  stream_status_members st =
      (
        codes "stream_status",
        object (
            (codes "type", Json.int (pos st.type))
            ∷ (codes "type_name", text (some (stream_status_code_to_string st.type)))
            ∷ (codes "owner", text st.owner)
            ∷ (codes "owner_factory", text st.factory)
            ∷ []),
      )
      ∷ []

  -- What the type of a message adds to the members that all have.
  abbrev pub type_members : MessageType → Message Double → List (Text × Json Double)
  type_members MessageType.error m = simple_members m.parsed
  type_members MessageType.warning m = simple_members m.parsed
  type_members MessageType.info m = simple_members m.parsed
  type_members MessageType.qos m = qos_members m.qos_values
  type_members MessageType.stream_status m = stream_status_members m.status
  type_members MessageType.element m = structure_members m.structure
  type_members MessageType.state_changed m =
      (codes "oldstate", text m.oldstate)
      ∷ (codes "newstate", text m.newstate)
      ∷ (codes "pending", text m.pending)
      ∷ []
  type_members MessageType.property_notify m =
      (codes "object-name", text m.notify.object_name)
      ∷ (codes "property_name", text m.notify.property_name)
      ∷ (codes "message", text (some (or_no_value m.notify.value)))
      ∷ []
  type_members MessageType.unhandled m = []

  abbrev pub message_json : Message Double → Json Double
  message_json m = object (
      (codes "type", text m.type_name)
      ∷ (codes "source", text m.source)
      ∷ (codes "timestamp", text (some m.timestamp))
      ∷ (codes "seqnum", Json.int (as_int m.seqnum))
      ∷ type_members m.type m)

  module _ (to_data : List (Call Double) → Text) where
    -- The class of a type writes what that adds.
    abbrev WritesType : MessageType → Message Double → Type 0
    WritesType type m =
        Writes
          (class_to_string (json_builder to_data) (factory_make type) (record m { type = type })).1
          (member_calls (members (type_members type m)))

    fields-Writes :
        (fields : List (Text × GValue Double))
        → Writes
            (for_each (json_builder to_data) (field_member (json_builder to_data)) fields)
            (member_calls (members (map field_json fields)))
    unfolding field_member calls
    fields-Writes [] s = sym (append-nil s)
    fields-Writes ((name, value) ∷ fields) s = simp (fields-Writes fields, writing)

    simple_parsed-Writes :
        (parsed : Option (Text × Option Text))
        → Writes
            (simple_parsed (json_builder to_data) parsed).1
            (member_calls (members (simple_members parsed)))
    unfolding calls
    simple_parsed-Writes none s = sym (append-nil s)
    simple_parsed-Writes (some (message, debug)) s = simp (writing, append-nil)

    element_to_string-Writes :
        (structure : Option (Text × List (Text × GValue Double)))
        → Writes
            (element_to_string (json_builder to_data) structure).1
            (member_calls (members (structure_members structure)))
    unfolding element_to_string calls
    element_to_string-Writes none s = sym (append-nil s)
    element_to_string-Writes (some (name, fields)) s = simp (fields-Writes fields, writing)

    type-Writes : (type : MessageType) (m : Message Double) → WritesType type m
    unfolding class_to_string factory_make simple_to_string qos_to_string stream_status_to_string
        state_changed_to_string notify_to_string calls
    type-Writes MessageType.error m = simple_parsed-Writes m.parsed
    type-Writes MessageType.warning m = simple_parsed-Writes m.parsed
    type-Writes MessageType.info m = simple_parsed-Writes m.parsed
    type-Writes MessageType.qos m = λ s. simp writing
    type-Writes MessageType.stream_status m = λ s. simp writing
    type-Writes MessageType.element m = element_to_string-Writes m.structure
    type-Writes MessageType.state_changed m = λ s. simp (writing, append-nil)
    type-Writes MessageType.property_notify m = λ s. simp (writing, append-nil)
    type-Writes MessageType.unhandled m = λ s. sym (append-nil s)

    pub write_message-Writes :
        (m : Message Double)
        → Writes (write_message (json_builder to_data) m) (calls (message_json m))
    unfolding write_message calls
    write_message-Writes m s = simp (writing, type-Writes m.type m)
