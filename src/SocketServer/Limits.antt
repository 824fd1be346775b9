-- ===== src/SocketServer/Limits.antt =====
-- Where a connection runs into what C leaves undefined.
use gstd_1_x.Base.{
  ℕ, zero, suc, ◌+◌, ◌<◌, ◌≡◌, ◌≢◌, refl, Text, false, List, [], ◌∷◌, ◌++◌, some, length,
  length-append, leb, ◌==◌, All, Free, arith, ℤ,
}
use gstd_1_x.GLib.{GLib}
use gstd_1_x.Object.{ObjectTree}
use gstd_1_x.Client
use gstd_1_x.Client.{Status, Call, Outcome, Network, bytes, Opened, refused, no_socket}
use gstd_1_x.Client.Socket.{
  max_response_length, last_byte, accumulate, accumulate_response, socket_send, open_socket,
}
use gstd_1_x.Client.Framing.{concat, Delivers, last_byte-Free, Free-back, pieces_bound}
use gstd_1_x.Client.Json.{Jansson}
use gstd_1_x.Client.Commands.{cmd_read, cmd_send_get_response}
use gstd_1_x.Client.Elements.{pipeline_signal_disconnect}
use gstd_1_x.SocketServer.{message_size, undefined, serve}

-- A message that fills the buffer of the server, to the last byte, is undefined: its terminator is
-- written behind the buffer.
pub serve-full :
    (g : GLib) (t : ObjectTree) (message : Text) (s : t.Store)
    → length message ≡ message_size
    → serve g t message s ≡ undefined
unfolding serve
serve-full g t message s h = rw h refl

Free-front : (s t : Text) → Free 0 (s ++ t) → Free 0 s
Free-front [] t h = tt
Free-front (c ∷ s) t h = (h.0, Free-front s t h.1)

module _ {W : Type 0} (net : Network W) where
  accumulate-closed :
      (fuel : ℕ) (acc : Text) (ss : List Text) (w w' v : W)
      → All (λ (p : Text). p ≢ []) ss
      → Free 0 (concat ss)
      → length acc + length (concat ss) < max_response_length
      → length ss < fuel
      → Delivers net ss w w'
      → net.recv w' ≡ (bytes [], v)
      → accumulate net fuel acc w ≡ (Client.undefined, v)
  unfolding accumulate
  accumulate-closed zero acc ss w w' v n h b f d e = absurd (omega arith)
  accumulate-closed (suc fuel) acc [] w w' v n h b f d e = rw (d, e) refl
  accumulate-closed (suc fuel) acc ([] ∷ ss) w w' v n h b f d e = absurd (n.0 refl)
  accumulate-closed (suc fuel) acc ((c ∷ s) ∷ ss) w w' v n h b f (u, q, d) e =
      let goes_on : (last_byte c s == 0) ≡ false =
        last_byte-Free c s (Free-front (c ∷ s) (concat ss) h) in
      let short : leb max_response_length (length (acc ++ c ∷ s)) ≡ false =
        ground (arith, length-append {0} acc (c ∷ s), length-append {0} (c ∷ s) (concat ss)) in
      rw q (
        rw short (
          rw goes_on (
            accumulate-closed fuel (acc ++ c ∷ s) ss u w' v n.1 (Free-back (c ∷ s) (concat ss) h)
              (omega (arith, length-append {0} acc (c ∷ s), length-append {0} (c ∷ s) (concat ss)))
              (omega arith) d e)))

  -- If the server closes the connection before the terminator of its answer, the client looks at the
  -- byte in front of its buffer, which C leaves undefined; the pieces received so far are not empty,
  -- have no terminator and are shorter than the longest response.
  pub closed_early :
      (ss : List Text) (w w' v : W)
      → All (λ (p : Text). p ≢ []) ss
      → Free 0 (concat ss)
      → length (concat ss) < max_response_length
      → Delivers net ss w w'
      → net.recv w' ≡ (bytes [], v)
      → accumulate_response net w ≡ (Client.undefined, v)
  unfolding accumulate_response
  closed_early ss w w' v n h b d e =
      accumulate-closed max_response_length [] ss w w' v n h (omega arith)
        (omega (arith, pieces_bound ss n)) d e

  -- If the server refuses the connection, gstc_pipeline_signal_disconnect frees a pointer that it has
  -- not initialised.
  pub disconnect_refused :
      (j : Jansson) (timeout : ℤ) (p e s : Text) (w w' : W)
      → net.open_connection w ≡ (refused, w')
      → (pipeline_signal_disconnect net j
          (record { socket = record { keep_connection_open = false }; timeout = timeout })
          (some p)
          (some e)
          (some s)
          w).0
        ≡ Client.undefined
  unfolding pipeline_signal_disconnect cmd_read cmd_send_get_response socket_send open_socket
  disconnect_refused j timeout p e s w w' h = rw h refl
