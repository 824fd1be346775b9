-- ===== src/SocketServer.antt =====
-- libgstd/gstd_socket.c: what a connection of a client comes to. What one read returns is taken for
-- one command.
pub mod Loopback
pub mod EndToEnd
pub mod Limits
use gstd_1_x.Base.{
  ℕ, Text, Bool, true, false, List, [], ◌∷◌, Option, none, some, length, ◌==◌, if◌then◌else◌,
}
use gstd_1_x.ReturnCode.{ReturnCode}
use gstd_1_x.Action.{Exit}
use gstd_1_x.Answer.{code_of, answer}
use gstd_1_x.GLib.{GLib}
use gstd_1_x.Object.{ObjectTree, Context}
use gstd_1_x.Client.Socket.{c_string}
use gstd_1_x.Parser.Dispatch.{parse_cmd}

-- The size of the buffer that messages are read to.
abbrev pub message_size : ℕ
message_size = 1048576

-- A message is answered, and changes the resources; or the server does what C leaves undefined.
pub data Served (S : Type 0) : Type 0 where
  answered : Text → S → Served S
  undefined : Served S

module _ (g : GLib) (t : ObjectTree) where
  open t use {Store}

  abbrev pub with_code : Option ReturnCode → Context Store → Served Store
  with_code none c = undefined
  with_code (some code) c = answered (answer code c.response) c.store

  abbrev pub executed : Exit {0} Unit × Context Store → Served Store
  executed (exit, c) = with_code (code_of exit) c

  abbrev pub in_buffer : Bool → Text → Store → Served Store
  in_buffer true message s = undefined
  in_buffer false message s =
      executed (parse_cmd g t (c_string message) (record { store = s; response = none }))

  -- One round of the loop of gstd_socket_callback, for a read that returns the message. The
  -- terminator is written behind the message, which is behind the buffer if the message fills it.
  unfoldable pub serve : Text → Store → Served Store
  unfolding answer parse_cmd
  serve message s = in_buffer (length message == message_size) message s

  -- The answers to the messages of a connection, in their order, and the resources at its end. A read
  -- of no byte ends it, and so does a write that fails; here all writes succeed.
  abbrev pub before : Text → Option (List Text × Store) → Option (List Text × Store)
  before a none = none
  before a (some (others, s)) = some (a ∷ others, s)

  abbrev pub serve_next :
      (Store → Option (List Text × Store)) → Served Store → Option (List Text × Store)
  serve_next more undefined = none
  serve_next more (answered a s) = before a (more s)

  -- gstd_socket_callback
  unfoldable pub serve_all : List Text → Store → Option (List Text × Store)
  unfolding serve
  serve_all [] s = some ([], s)
  serve_all ([] ∷ messages) s = some ([], s)
  serve_all ((b ∷ message) ∷ messages) s = serve_next (serve_all messages) (serve (b ∷ message) s)
