-- ===== src/Parser/EventOrders.antt =====
-- The commands on the bus and the events of a pipeline: how a client writes each, and what it asks
-- for.
use mathlib.Core.List.{append_assoc, append-nil}
use gstd_1_x.Base.{Text, codes, ◌≡◌, refl, [], ◌∷◌, ◌++◌, space, arith}
use gstd_1_x.GLib.{GLib}
use gstd_1_x.Object.{ObjectTree}
use gstd_1_x.Parser.Words.{str}
use gstd_1_x.Parser.Tokens.{two_tokens}
use gstd_1_x.Parser.Events.{
  bus_read, event_eos, event_flush_start, bus_filter, bus_timeout, event_seek, event_flush_stop,
}
use gstd_1_x.Parser.Requests.{
  Request, create_at, read_at, update_at, IsName, literal, run, raw_cmd-create, raw_cmd-read,
  raw_cmd-update, parse_cmd-word,
}
use gstd_1_x.Parser.Dispatch.{parse_cmd, cmds}

-- p is the name of a pipeline, and v a value.
pub data EventOrder : Type 0 where
  read_bus : (p : Text) → EventOrder
  send_eos : (p : Text) → EventOrder
  start_flush : (p : Text) → EventOrder
  filter_bus : (p v : Text) → EventOrder
  set_bus_timeout : (p v : Text) → EventOrder
  seek_with : (p v : Text) → EventOrder
  seek : (p : Text) → EventOrder
  stop_flush_with : (p v : Text) → EventOrder
  stop_flush : (p : Text) → EventOrder

-- The text of the command.
abbrev pub line : EventOrder → Text
line (read_bus p) = codes "bus_read" ++ space ∷ p
line (send_eos p) = codes "event_eos" ++ space ∷ p
line (start_flush p) = codes "event_flush_start" ++ space ∷ p
line (filter_bus p v) = codes "bus_filter" ++ space ∷ (p ++ space ∷ v)
line (set_bus_timeout p v) = codes "bus_timeout" ++ space ∷ (p ++ space ∷ v)
line (seek_with p v) = codes "event_seek" ++ space ∷ (p ++ space ∷ v)
line (seek p) = codes "event_seek" ++ space ∷ p
line (stop_flush_with p v) = codes "event_flush_stop" ++ space ∷ (p ++ space ∷ v)
line (stop_flush p) = codes "event_flush_stop" ++ space ∷ p

-- The names are names.
abbrev pub IsValid : EventOrder → Type 0
IsValid (read_bus p) = IsName p
IsValid (send_eos p) = IsName p
IsValid (start_flush p) = IsName p
IsValid (filter_bus p v) = IsName p
IsValid (set_bus_timeout p v) = IsName p
IsValid (seek_with p v) = IsName p
IsValid (seek p) = IsName p
IsValid (stop_flush_with p v) = IsName p
IsValid (stop_flush p) = IsName p

-- The resource, the verb and the argument.
abbrev pub request : GLib → EventOrder → Request
request g (read_bus p) = read_at (codes "pipelines" ∷ p ∷ codes "bus" ∷ codes "message" ∷ [])
request g (send_eos p) = create_at (codes "pipelines" ∷ p ∷ codes "event" ∷ []) (str (codes "eos"))
request g (start_flush p) =
    create_at (codes "pipelines" ∷ p ∷ codes "event" ∷ []) (str (codes "flush_start"))
request g (filter_bus p v) =
    update_at (codes "pipelines" ∷ p ∷ codes "bus" ∷ codes "types" ∷ []) (str v)
request g (set_bus_timeout p v) =
    update_at (codes "pipelines" ∷ p ∷ codes "bus" ∷ codes "timeout" ∷ []) (str v)
request g (seek_with p v) =
    create_at (codes "pipelines" ∷ p ∷ codes "event" ∷ []) (str (codes "seek " ++ v))
request g (seek p) =
    create_at (codes "pipelines" ∷ p ∷ codes "event" ∷ []) (str (codes "seek " ++ g.printf_null))
request g (stop_flush_with p v) =
    create_at (codes "pipelines" ∷ p ∷ codes "event" ∷ []) (str (codes "flush_stop " ++ v))
request g (stop_flush p) =
    create_at (codes "pipelines" ∷ p ∷ codes "event" ∷ [])
      (str (codes "flush_stop " ++ g.printf_null))

-- Every command on the bus or the events of a pipeline does what its request says: it reads the
-- names from the session on, and acts on the resource that they lead to. The name of the pipeline is
-- not empty and has no slash and no space. A seek or a flush_stop without a value is sent with the
-- text that the C library prints for NULL as its value.
pub parse_cmd-event :
    (g : GLib) (t : ObjectTree) (o : EventOrder)
    → IsValid o
    → parse_cmd g t (line o) ≡ run g t (request g o)
unfolding cmds bus_read event_eos event_flush_start bus_filter bus_timeout event_seek
    event_flush_stop
parse_cmd-event g t (read_bus p) h = rw (parse_cmd-word g t (codes "bus_read") (p) (omega arith)) (
    raw_cmd-read g t (codes "pipelines") (p ∷ codes "bus" ∷ codes "message" ∷ [])
      (simp (append_assoc, append-nil)) (literal _ refl)
      (h, (literal _ refl, (literal _ refl, tt))))
parse_cmd-event g t (send_eos p) h = rw (parse_cmd-word g t (codes "event_eos") (p) (omega arith)) (
    raw_cmd-create g t (codes "pipelines") (p ∷ codes "event" ∷ []) (codes "eos")
      (simp append_assoc) (literal _ refl) (h, (literal _ refl, tt)))
parse_cmd-event g t (start_flush p) h =
    rw (parse_cmd-word g t (codes "event_flush_start") (p) (omega arith)) (
      raw_cmd-create g t (codes "pipelines") (p ∷ codes "event" ∷ []) (codes "flush_start")
        (simp append_assoc) (literal _ refl) (h, (literal _ refl, tt)))
parse_cmd-event g t (filter_bus p v) h =
    rw
      (
        parse_cmd-word g t (codes "bus_filter") (p ++ space ∷ v) (omega arith),
        two_tokens g p v h.no_space,
      )
      (raw_cmd-update g t (codes "pipelines") (p ∷ codes "bus" ∷ codes "types" ∷ []) (v)
        (simp append_assoc) (literal _ refl) (h, (literal _ refl, (literal _ refl, tt))))
parse_cmd-event g t (set_bus_timeout p v) h =
    rw
      (
        parse_cmd-word g t (codes "bus_timeout") (p ++ space ∷ v) (omega arith),
        two_tokens g p v h.no_space,
      )
      (raw_cmd-update g t (codes "pipelines") (p ∷ codes "bus" ∷ codes "timeout" ∷ []) (v)
        (simp append_assoc) (literal _ refl) (h, (literal _ refl, (literal _ refl, tt))))
parse_cmd-event g t (seek_with p v) h =
    rw
      (
        parse_cmd-word g t (codes "event_seek") (p ++ space ∷ v) (omega arith),
        two_tokens g p v h.no_space,
      )
      (raw_cmd-create g t (codes "pipelines") (p ∷ codes "event" ∷ []) (codes "seek " ++ v)
        (simp append_assoc) (literal _ refl) (h, (literal _ refl, tt)))
parse_cmd-event g t (seek p) h =
    rw
      (
        parse_cmd-word g t (codes "event_seek") (p) (omega arith),
        g.strsplit_last p space 1 h.nonempty h.no_space,
      )
      (raw_cmd-create g t (codes "pipelines") (p ∷ codes "event" ∷ [])
        (codes "seek " ++ g.printf_null) (simp append_assoc) (literal _ refl)
        (h, (literal _ refl, tt)))
parse_cmd-event g t (stop_flush_with p v) h =
    rw
      (
        parse_cmd-word g t (codes "event_flush_stop") (p ++ space ∷ v) (omega arith),
        two_tokens g p v h.no_space,
      )
      (raw_cmd-create g t (codes "pipelines") (p ∷ codes "event" ∷ []) (codes "flush_stop " ++ v)
        (simp append_assoc) (literal _ refl) (h, (literal _ refl, tt)))
parse_cmd-event g t (stop_flush p) h =
    rw
      (
        parse_cmd-word g t (codes "event_flush_stop") (p) (omega arith),
        g.strsplit_last p space 1 h.nonempty h.no_space,
      )
      (raw_cmd-create g t (codes "pipelines") (p ∷ codes "event" ∷ [])
        (codes "flush_stop " ++ g.printf_null) (simp append_assoc) (literal _ refl)
        (h, (literal _ refl, tt)))
