-- ===== src/Event/Sent.antt =====
-- What the server makes of a flush_stop event, of the client library and of the parser.
use gstd_1_x.Base.{◌≡◌, refl, Text, codes, Bool, true, false, map, to_lower, text_eq, none, some}
use gstd_1_x.ReturnCode.{ReturnCode, eok, bad_value, event_error}
use gstd_1_x.GLib.{GLib}
use gstd_1_x.Object
use gstd_1_x.Object.{Out}
use gstd_1_x.Event.{EventCalls, ascii_to_boolean, parse_event, make, send_event, creator_create}

module _ {Element W : Type 0} (g : GLib) (calls : EventCalls Element W) where
  -- What gst_element_send_event says of an event.
  abbrev pub code_of_sent : Bool → ReturnCode
  code_of_sent true = eok
  code_of_sent false = event_error

  -- The command event_flush_stop without a value composes a description of what the C library prints
  -- for NULL. If that is not true or false, in letters of either case, it is a bad value and no event is
  -- sent: the default of the event is not used.
  pub creator_create-printf_null :
      (receiver : Element) (w : W)
      → text_eq (map to_lower g.printf_null) (codes "true") ≡ false
      → text_eq (map to_lower g.printf_null) (codes "false") ≡ false
      → (creator_create g calls {A = Text} receiver
            (some (codes "flush_stop"))
            (some g.printf_null)
            w
          ≡ ((bad_value, Object.null), w))
        × (make g calls (codes "flush_stop") none ≡ some (calls.new_flush_stop true))
  unfolding creator_create send_event make parse_event ascii_to_boolean
  creator_create-printf_null receiver w ht hf =
      (rw (g.strcasecmp_some, ht) (rw (g.strcasecmp_some, hf) refl), refl)
