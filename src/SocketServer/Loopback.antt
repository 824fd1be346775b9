-- ===== src/SocketServer/Loopback.antt =====
-- The client library at a server: the network carries what the one sends to the other, in pieces.
use gstd_1_x.Base.{
  ◌+◌, ◌<◌, ◌≡◌, ◌≢◌, refl, ℤ, pos, Text, codes, Bool, true, false, List, [], ◌∷◌, ◌++◌, none, some,
  length, ◌==◌, All, Free, arith,
}
use gstd_1_x.ReturnCode.{ReturnCode, number_of}
use gstd_1_x.Action.{Exit}
use gstd_1_x.Answer.{code_of, answer}
use gstd_1_x.GLib.{GLib}
use gstd_1_x.Object.{ObjectTree, Context, at}
use gstd_1_x.Client.{ok, returns, Network, opened, readable, Received, bytes}
use gstd_1_x.Client.Socket.{
  max_response_length, c_string, open_socket, socket_send, accumulate_response,
}
use gstd_1_x.Client.Framing.{append_empty, c_string-terminated, concat, Delivers, response_framing}
use gstd_1_x.Client.Json.{Jansson, get_int}
use gstd_1_x.Client.Commands.{Client, cmd_send_get_response, cmd_send}
use gstd_1_x.Parser.Dispatch.{parse_cmd}
use gstd_1_x.SocketServer.{message_size, Served, answered, undefined, serve}

-- The resources of the server, and the pieces of an answer that wait to be read.
pub record Wire (S : Type 0) : Type 0 where
  pub store : S
  pub inbox : List Text

-- How the network cuts what it carries: nothing is lost, and no piece is empty.
pub record Cutting : Type 0 where
  pub first : Text → Text
  pub others : Text → List Text
  pub whole : (s : Text) → s ≢ [] → concat (first s ∷ others s) ≡ s
  pub filled : (s : Text) → s ≢ [] → All (λ (p : Text). p ≢ []) (first s ∷ others s)

module _ (g : GLib) (t : ObjectTree) (cut : Cutting) where
  open t use {Store}

  abbrev pub delivered : Wire Store → Served Store → Bool × Wire Store
  delivered w undefined = (false, w)
  delivered w (answered a s) =
      let sent = a ++ 0 ∷ [] in
      (true, record { store = s; inbox = w.inbox ++ cut.first sent ∷ cut.others sent })

  abbrev pub next_piece : Store → List Text → Received × Wire Store
  next_piece s [] = (bytes [], record { store = s; inbox = [] })
  next_piece s (p ∷ ps) = (bytes p, record { store = s; inbox = ps })

  -- The network between a client and a server that is reachable and answers in time.
  abbrev pub network : Network (Wire Store)
  network = record {
    open_connection = λ w. (opened, w);
    send = λ request w. delivered w (serve g t request w.store);
    poll = λ timeout w. (readable, w);
    recv = λ w. next_piece w.store w.inbox;
    close = λ w. record w { inbox = [] };
  }

  Delivers-inbox :
      (s : Store) (ps : List Text)
      → Delivers network ps (record { store = s; inbox = ps }) (record { store = s; inbox = [] })
  Delivers-inbox s [] = refl
  Delivers-inbox s (p ∷ ps) = (record { store = s; inbox = ps }, refl, Delivers-inbox s ps)

  answer_read :
      (a : Text) (s : Store)
      → Free 0 a
      → length a + 1 < max_response_length
      → accumulate_response network (delivered (record { store = s; inbox = [] }) (answered a s)).1
        ≡ (returns (ok, at (a ++ 0 ∷ [])), record { store = s; inbox = [] })
  answer_read a s h b =
      let sent = a ++ 0 ∷ [] in
      let n : sent ≢ [] = λ z. cc (append_empty a (0 ∷ []) z) in
      (response_framing network a (cut.first sent) (cut.others sent) _ _ h b (cut.whole sent n)
        (cut.filled sent n) (Delivers-inbox s (cut.first sent ∷ cut.others sent))).0

  c_string-Free : (s : Text) → Free 0 s → c_string s ≡ s
  c_string-Free [] h = refl
  c_string-Free (c ∷ s) h = ground (arith, h.0, c_string-Free s h.1)

  -- A message is served by running its line.
  serve_line :
      (line : Text) (s : Store) (exit : Exit {0} Unit) (c : Context Store) (code : ReturnCode)
      → length line < message_size
      → Free 0 line
      → parse_cmd g t line (record { store = s; response = none }) ≡ (exit, c)
      → code_of exit ≡ some code
      → serve g t line s ≡ answered (answer code c.response) c.store
  unfolding serve
  serve_line line s exit c code b h e k =
      let fits : (length line == message_size) ≡ false = ground arith in
      rw fits (rw (c_string-Free line h) (rw e (rw k refl)))

  -- The server is idle: no answer waits to be read.
  abbrev pub idle : Store → Wire Store
  idle s = record { store = s; inbox = [] }

  -- What the client gets to know, and what the server then is.
  exchange :
      (keep : Bool) (timeout : ℤ) (line a : Text) (s s' : Store)
      → serve g t line s ≡ answered a s'
      → Free 0 a
      → length a + 1 < max_response_length
      → socket_send network (record { keep_connection_open = keep }) line timeout (idle s)
        ≡ (returns (ok, at (a ++ 0 ∷ [])), idle s')
  unfolding socket_send open_socket
  exchange true timeout line a s s' e h b = rw e (rw (answer_read a s' h b) refl)
  exchange false timeout line a s s' e h b = rw e (rw (answer_read a s' h b) refl)

  -- A line that the client sends to the server is run there, and the client gets its code.
  pub cmd_send-line :
      (j : Jansson) (client : Client) (line : Text) (s : Store) (exit : Exit {0} Unit)
      (c : Context Store) (code : ReturnCode)
      → length line < message_size
      → Free 0 line
      → parse_cmd g t line (record { store = s; response = none }) ≡ (exit, c)
      → code_of exit ≡ some code
      → Free 0 (answer code c.response)
      → length (answer code c.response) + 1 < max_response_length
      → get_int j (answer code c.response) (codes "code") ≡ (ok, some (pos (number_of code)))
      → cmd_send network j client line (idle s) ≡ (returns (pos (number_of code)), idle c.store)
  unfolding cmd_send cmd_send_get_response
  cmd_send-line j client line s exit c code b h e k fa ba r =
      rw
        (
          exchange client.socket.keep_connection_open client.timeout line (answer code c.response) s
              c.store (serve_line line s exit c code b h e k) fa ba,
          c_string-terminated (answer code c.response) fa,
          r,
        )
        refl
