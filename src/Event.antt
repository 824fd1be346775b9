-- ===== src/Event.antt =====
-- libgstd/gstd_event_factory.c and gstd_event_creator.c: events are made from their names and
-- descriptions, and sent to an element.
pub mod Seek
pub mod Sent
use gstd_1_x.Base.{
  ℕ, ◌+◌, ◌-◌, ◌%◌, ◌^◌, Text, codes, Bool, true, false, ◌&&◌, ◌||◌, not, List, [], ◌∷◌, ◌==◌,
  Option, none, some, ℤ, pos, negsuc, is_zero, space, text_eq, if◌then◌else◌,
}
use gstd_1_x.ReturnCode.{ReturnCode, eok, null_argument, bad_value, event_error}
use gstd_1_x.GLib.{GLib}
use gstd_1_x.Object
use gstd_1_x.Object.{Out}

-- GstdEventType
pub data EventType : Type 0 where
  unknown flush_start flush_stop stream_start caps segment tag buffersize : EventType
  sink_message eos toc segment_done gap qos seek navigation : EventType

-- errno, after it has been set to 0.
pub data Errno : Type 0 where
  no_error erange other_error : Errno

-- The arguments of gst_event_new_seek. The enumerations are numbers of 32 bits.
pub record SeekArguments (Double : Type 0) : Type 0 where
  pub rate : Double
  pub format : ℕ
  pub flags : ℕ
  pub start_type : ℕ
  pub start : ℤ
  pub stop_type : ℕ
  pub stop : ℤ

-- The numbers of C and the calls of GLib and GStreamer on them and on events.
pub record EventCalls (Element W : Type 0) : Type 1 where
  pub Double : Type 0
  -- g_ascii_strtod (full_string, NULL)
  pub ascii_strtod : Text → Double × Errno
  -- The conversion of a double to a gint64.
  pub to_gint64 : Double → ℤ
  -- == HUGE_VALF || == HUGE_VALL, and == 0
  pub is_huge : Double → Bool
  pub is_null : Double → Bool
  pub one : Double
  -- GST_FORMAT_TIME, GST_SEEK_FLAG_FLUSH and GST_SEEK_TYPE_SET
  pub format_time : ℕ
  pub seek_flag_flush : ℕ
  pub seek_type_set : ℕ
  pub Event : Type 0
  pub new_eos : Event
  pub new_flush_start : Event
  pub new_flush_stop : Bool → Event
  -- Nothing stands for NULL.
  pub new_seek : SeekArguments Double → Option Event
  pub send_event : Element → Event → W → Bool × W

-- strcmp, in the order of the tests.
unfoldable pub parse_event : Text → EventType
parse_event name =
    if text_eq name (codes "eos")
    then eos
    else (if text_eq name (codes "seek")
        then seek
        else (if text_eq name (codes "flush-start") || text_eq name (codes "flush_start")
            then flush_start
            else (if text_eq name (codes "flush-stop") || text_eq name (codes "flush_stop")
                then flush_stop
                else unknown)))

-- LONG_MAX or LONG_MIN, of 64 bits.
abbrev pub at_limit : ℤ → Bool
at_limit (pos n) = n == 2 ^ 63 - 1
at_limit (negsuc n) = n == 2 ^ 63 - 1

-- The conversion of a gint64 to an enumeration of 32 bits.
abbrev pub to_enum : ℤ → ℕ
to_enum (pos n) = n % 2 ^ 32
to_enum (negsuc n) = 2 ^ 32 - 1 - n % 2 ^ 32

-- Whether a number is refused: by errno, whether it is at a limit and whether it is 0.
abbrev pub refused : Errno → Bool → Bool → Bool
refused no_error limit zero = false
refused erange limit zero = limit || zero
refused other_error limit zero = zero

module _ {Element W : Type 0} (g : GLib) (calls : EventCalls Element W) where
  open calls use {Double, Event}

  -- gstd_ascii_to_gint64
  unfoldable pub ascii_to_gint64 : Text → Option ℤ
  ascii_to_gint64 full_string =
      let (d, errno) = calls.ascii_strtod full_string in
      let value = calls.to_gint64 d in
      if refused errno (at_limit value) (is_zero value) then none else some value

  -- gstd_ascii_to_double
  unfoldable pub ascii_to_double : Text → Option Double
  ascii_to_double full_string =
      let (d, errno) = calls.ascii_strtod full_string in
      if refused errno (calls.is_huge d) (calls.is_null d) then none else some d

  -- gstd_ascii_to_boolean
  unfoldable pub ascii_to_boolean : Text → Option Bool
  ascii_to_boolean full_string =
      if g.strcasecmp full_string (some (codes "true"))
      then some true
      else (if g.strcasecmp full_string (some (codes "false")) then some false else none)

  abbrev pub seek_defaults : SeekArguments Double
  seek_defaults = record {
    rate = calls.one;
    format = calls.format_time;
    flags = calls.seek_flag_flush;
    start_type = calls.seek_type_set;
    start = pos 0;
    stop_type = calls.seek_type_set;
    stop = negsuc 0;
  }

  -- if (!gstd_ascii_to_...) goto out;
  abbrev pub or_out : {A : Type 0} → Option A → (A → Option Event) → Option Event
  or_out none k = none
  or_out (some a) k = k a

  -- The chain of tests on the tokens, from its end on: the first token that is missing leads to the
  -- label fallback.
  abbrev pub read_stop : SeekArguments Double → List Text → Option Event
  read_stop a [] = calls.new_seek a
  read_stop a (t ∷ ts) = or_out (ascii_to_gint64 t) λ v. calls.new_seek (record a { stop = v })

  abbrev pub read_stop_type : SeekArguments Double → List Text → Option Event
  read_stop_type a [] = calls.new_seek a
  read_stop_type a (t ∷ ts) =
      or_out (ascii_to_gint64 t) λ v. read_stop (record a { stop_type = to_enum v }) ts

  abbrev pub read_start : SeekArguments Double → List Text → Option Event
  read_start a [] = calls.new_seek a
  read_start a (t ∷ ts) = or_out (ascii_to_gint64 t) λ v. read_stop_type (record a { start = v }) ts

  abbrev pub read_start_type : SeekArguments Double → List Text → Option Event
  read_start_type a [] = calls.new_seek a
  read_start_type a (t ∷ ts) =
      or_out (ascii_to_gint64 t) λ v. read_start (record a { start_type = to_enum v }) ts

  abbrev pub read_flags : SeekArguments Double → List Text → Option Event
  read_flags a [] = calls.new_seek a
  read_flags a (t ∷ ts) =
      or_out (ascii_to_gint64 t) λ v. read_start_type (record a { flags = to_enum v }) ts

  abbrev pub read_format : SeekArguments Double → List Text → Option Event
  read_format a [] = calls.new_seek a
  read_format a (t ∷ ts) =
      or_out (ascii_to_gint64 t) λ v. read_flags (record a { format = to_enum v }) ts

  unfoldable pub seek_tokens : List Text → Option Event
  unfolding ascii_to_gint64 ascii_to_double
  seek_tokens [] = calls.new_seek seek_defaults
  seek_tokens (t ∷ ts) =
      or_out (ascii_to_double t) λ v. read_format (record seek_defaults { rate = v }) ts

  -- gstd_event_factory_make_seek_event
  abbrev pub make_seek_event : Option Text → Option Event
  make_seek_event none = seek_tokens []
  make_seek_event (some description) = seek_tokens (g.strsplit description space 7)

  -- gstd_event_factory_make_flush_stop_event
  abbrev pub make_flush_stop_event : Option Text → Option Event
  make_flush_stop_event none = some (calls.new_flush_stop true)
  make_flush_stop_event (some description) =
      or_out (ascii_to_boolean description) λ reset_time. some (calls.new_flush_stop reset_time)

  abbrev pub make_type : EventType → Option Text → Option Event
  make_type eos description = some calls.new_eos
  make_type seek description = make_seek_event description
  make_type flush_start description = some calls.new_flush_start
  make_type flush_stop description = make_flush_stop_event description
  make_type _ description = none

  -- gstd_event_factory_make
  unfoldable pub make : Text → Option Text → Option Event
  unfolding parse_event seek_tokens ascii_to_boolean
  make name description = make_type (parse_event name) description

  abbrev pub accepted : Bool × W → ReturnCode × W
  accepted (true, w) = (eok, w)
  accepted (false, w) = (event_error, w)

  abbrev pub send_made : Element → Option Event → W → ReturnCode × W
  send_made receiver none w = (bad_value, w)
  send_made receiver (some event) w = accepted (calls.send_event receiver event w)

  -- gstd_event_creator_send_event
  unfoldable pub send_event : Element → Text → Option Text → W → ReturnCode × W
  unfolding make
  send_event receiver event_type description w = send_made receiver (make event_type description) w

  -- gstd_event_creator_create, with what is written to *out
  unfoldable pub creator_create :
      {A : Type 0} → Element → Option Text → Option Text → W → (ReturnCode × Out A) × W
  unfolding send_event
  creator_create receiver none description w = ((null_argument, Object.null), w)
  creator_create receiver (some name) description w =
      let (code, w') = send_event receiver name description w in ((code, Object.null), w')
