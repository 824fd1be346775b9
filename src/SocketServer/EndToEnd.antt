-- ===== src/SocketServer/EndToEnd.antt =====
-- The functions of the client library at a server, from the call to the resources and back.
use gstd_1_x.Base.{
  pos, ◌+◌, ◌<◌, ◌≡◌, refl, ap, ◌∙◌, Text, codes, Option, none, some, length, Free, arith,
}
use gstd_1_x.ReturnCode.{ReturnCode, bad_command, number_of}
use gstd_1_x.Action.{Exit, stop, return}
use gstd_1_x.Answer.{code_of, answer}
use gstd_1_x.GLib.{GLib}
use gstd_1_x.Object.{ObjectTree, Context}
use gstd_1_x.Client.{ok, returns}
use gstd_1_x.Client.Socket.{max_response_length}
use gstd_1_x.Client.Json.{Jansson, get_int}
use gstd_1_x.Client.Commands.{Client, words}
use gstd_1_x.Client.Pipelines.{pipeline_create_ref}
use gstd_1_x.Client.Orders.{ClientOrder, IsValid, call, line, request, call-line, parse_cmd-client}
use gstd_1_x.Parser.Requests.{run, parse_cmd-word}
use gstd_1_x.Parser.Dispatch.{parse_cmd, cmds}
use gstd_1_x.SocketServer.{message_size}
use gstd_1_x.SocketServer.Loopback.{Cutting, network, idle, cmd_send-line}

-- A line and the answer to it are C strings that the buffers hold, and Jansson reads the code off the
-- answer.
pub record IsCarried (j : Jansson) (message : Text) (code : ReturnCode) (output : Option Text)
    : Type 0 where
  pub message_fits : length message < message_size
  pub message_string : Free 0 message
  pub answer_fits : length (answer code output) + 1 < max_response_length
  pub answer_string : Free 0 (answer code output)
  pub answer_code :
      get_int j (answer code output) (codes "code") ≡ (ok, some (pos (number_of code)))

module _ (g : GLib) (t : ObjectTree) (cut : Cutting) (j : Jansson) (client : Client) where
  open t use {Store}

  abbrev start : Store → Context Store
  start s = record { store = s; response = none }

  -- One of the functions of ClientOrder asks the server for something, through a network that hands the
  -- line over in one piece and cuts the answer anywhere: the server performs the request that the
  -- function stands for, and the function returns the code of the request, if the line and the answer
  -- fit the buffers and have no zero byte, and Jansson reads the code off the answer.
  pub client_order :
      (o : ClientOrder) (s : Store) (exit : Exit {0} Unit) (c : Context Store) (code : ReturnCode)
      → IsValid o
      → run g t (request o) (start s) ≡ (exit, c)
      → code_of exit ≡ some code
      → IsCarried j (line o) code c.response
      → call g (network g t cut) j client o (idle g t cut s)
        ≡ (returns (pos (number_of code)), idle g t cut c.store)
  client_order o s exit c code v e k h = rw (call-line g (network g t cut) j client o) (
      cmd_send-line g t cut j client (line o) s exit c code h.message_fits h.message_string
        (ap (λ f. f (start s)) (parse_cmd-client g t o v) ∙ e) k h.answer_string h.answer_fits
        h.answer_code)

  -- No command of the server is spelled like that of gstc_pipeline_create_ref.
  unknown_word :
      (p d : Text)
      → parse_cmd g t (words (codes "pipeline_crete_ref") (words p d)) ≡ return bad_command
  unfolding cmds
  unknown_word p d =
      rw (parse_cmd-word g t (codes "pipeline_crete_ref") (words p d) (omega arith)) refl

  -- gstc_pipeline_create_ref never creates a pipeline nor takes a reference: whatever the name and
  -- the description, it returns the code of a bad command, and the server is as it was, if the line
  -- and the answer are carried.
  pub create_ref_fails :
      (p d : Text) (s : Store)
      → IsCarried j (words (codes "pipeline_crete_ref") (words p d)) bad_command none
      → pipeline_create_ref (network g t cut) j client (some p) (some d) (idle g t cut s)
        ≡ (returns (pos (number_of bad_command)), idle g t cut s)
  unfolding pipeline_create_ref
  create_ref_fails p d s h =
      cmd_send-line g t cut j client (words (codes "pipeline_crete_ref") (words p d)) s
        (stop bad_command) (start s) bad_command h.message_fits h.message_string
        (ap (λ f. f (start s)) (unknown_word p d)) refl h.answer_string h.answer_fits h.answer_code
