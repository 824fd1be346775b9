-- ===== src/Examples/Events.antt =====
-- Events on a small GStreamer.
use gstd_1_x.Base.{
  ℕ, Text, Bool, true, false, List, ◌∷◌, Option, none, some, pos, ◌==◌, if◌then◌else◌,
}
use gstd_1_x.Object
use gstd_1_x.Event.{SeekArguments, EventCalls, no_error}
use gstd_1_x.Examples.Wire.{numeral}

data Event : Type 0 where
  eos flush_start : Event
  flush_stop : Bool → Event
  seek : SeekArguments ℕ → Event

-- gst_event_new_seek refuses a rate of 0.
abbrev new_seek : SeekArguments ℕ → Option Event
new_seek a = if a.rate == 0 then none else some (seek a)

-- Doubles are natural numbers, the world is the list of events that have been sent.
abbrev events : EventCalls Text (List Event)
events = record {
  Double = ℕ;
  ascii_strtod = λ s. (numeral 0 s, no_error);
  to_gint64 = pos;
  is_huge = λ d. false;
  is_null = λ d. d == 0;
  one = 1;
  format_time = 3;
  seek_flag_flush = 1;
  seek_type_set = 1;
  Event = Event;
  new_eos = eos;
  new_flush_start = flush_start;
  new_flush_stop = flush_stop;
  new_seek = new_seek;
  send_event = λ e v w. (true, v ∷ w);
}
