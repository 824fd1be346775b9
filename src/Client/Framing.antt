-- ===== src/Client/Framing.antt =====
-- How a response is read: it ends with its terminator, in whatever pieces it arrives.
use gstd_1_x.Base.{
  ℕ, zero, suc, ◌+◌, ◌≤◌, ◌<◌, ◌≡◌, ◌≢◌, refl, sym, ap, ◌∙◌, Text, Bool, true, false, List, [], ◌∷◌,
  ◌++◌, append_assoc, append-nil, length, length-append, leb, ◌==◌, ℤ, pos, negsuc, All, Free,
  Bool-cases, inl, inr, arith,
}
use gstd_1_x.Object.{Out, at}
use gstd_1_x.Client
use gstd_1_x.Client.{
  Status, ok, Outcome, returns, undefined, unfinished, Call, ◌>>=◌, Opened, opened, no_socket,
  no_option, refused, Polled, failed, expired, readable, other_event, Received, broken, bytes,
  Network,
}
use gstd_1_x.Client.Socket.{
  Socket, max_response_length, last_byte, c_string, open_socket, opened_as, received, accumulate,
  accumulate_response, connected, transact, closed, polled, sent, socket_send,
}

-- The bytes of all pieces.
abbrev pub concat : List Text → Text
concat [] = []
concat (s ∷ ss) = s ++ concat ss

cons_head : {a b : ℕ} {s t : Text} → ◌≡◌ {A = Text} (a ∷ s) (b ∷ t) → a ≡ b
cons_head e = cc e

cons_tail : {a b : ℕ} {s t : Text} → ◌≡◌ {A = Text} (a ∷ s) (b ∷ t) → s ≡ t
cons_tail e = cc e

pub append_empty : (s t : Text) → s ++ t ≡ [] → t ≡ []
append_empty [] t e = e
append_empty (c ∷ s) t e = cc e

front_empty : (s t : Text) → s ++ t ≡ [] → s ≡ []
front_empty [] t e = refl
front_empty (c ∷ s) t e = cc e

-- Before the last piece there is no terminator.
front-Free : (s t r : Text) → s ++ t ≡ r ++ 0 ∷ [] → t ≢ [] → Free 0 r → Free 0 s
front-Free [] t r e n h = tt
front-Free (c ∷ s) t [] e n h = absurd (n (append_empty s t (cons_tail e)))
front-Free (c ∷ s) t (d ∷ r) e n h = (rw (cons_head e) h.0, front-Free s t r (cons_tail e) n h.1)

pub last_byte-Free : (c : ℕ) (s : Text) → Free 0 (c ∷ s) → (last_byte c s == 0) ≡ false
last_byte-Free c [] h = ground (arith, h.0)
last_byte-Free c (d ∷ s) h = last_byte-Free d s h.1

pub Free-back : (s t : Text) → Free 0 (s ++ t) → Free 0 t
Free-back [] t h = h
Free-back (c ∷ s) t h = Free-back s t h.1

last_byte-append : (c : ℕ) (s : Text) (d : ℕ) (t : Text) → last_byte c (s ++ d ∷ t) ≡ last_byte d t
last_byte-append c [] d t = refl
last_byte-append c (b ∷ s) d t = last_byte-append b s d t

-- The last byte of a text, if it has one.
abbrev last_of : Text → ℕ
last_of [] = 0
last_of (c ∷ s) = last_byte c s

last_of-append : (s : Text) (d : ℕ) (t : Text) → last_of (s ++ d ∷ t) ≡ last_byte d t
last_of-append [] d t = refl
last_of-append (c ∷ s) d t = last_byte-append c s d t

pub c_string-terminated : (r : Text) → Free 0 r → c_string (r ++ 0 ∷ []) ≡ r
c_string-terminated [] h = refl
c_string-terminated (c ∷ r) h = ground (arith, h.0, c_string-terminated r h.1)

pub pieces_bound : (ss : List Text) → All (λ (p : Text). p ≢ []) ss → length ss ≤ length (concat ss)
pieces_bound [] n = omega arith
pieces_bound ([] ∷ ss) n = absurd (n.0 refl)
pieces_bound ((c ∷ s) ∷ ss) n = omega (arith, pieces_bound ss n.1, length-append {0} s (concat ss))

module _ {W : Type 0} (net : Network W) where
  -- recv hands out these pieces one after the other.
  abbrev pub Delivers : List Text → W → W → Type 0
  Delivers [] w w' = w ≡ w'
  Delivers (s ∷ ss) w w' = (v : W) × (net.recv w ≡ (bytes s, v)) × Delivers ss v w'

  accumulate-Delivers :
      (fuel : ℕ) (acc s : Text) (ss : List Text) (r : Text) (w w' : W)
      → acc ++ concat (s ∷ ss) ≡ r ++ 0 ∷ []
      → All (λ (p : Text). p ≢ []) (s ∷ ss)
      → Free 0 r
      → length r + 1 < max_response_length
      → length (s ∷ ss) ≤ fuel
      → Delivers (s ∷ ss) w w'
      → accumulate net fuel acc w ≡ (returns (ok, at (r ++ 0 ∷ [])), w')
  unfolding accumulate
  accumulate-Delivers zero acc s ss r w w' e n h b f d = absurd (omega arith)
  accumulate-Delivers (suc fuel) acc [] ss r w w' e n h b f d = absurd (n.0 refl)
  accumulate-Delivers (suc fuel) acc (c ∷ s) [] r w w' e n h b f (v, q, same) =
      let whole : acc ++ c ∷ s ≡ r ++ 0 ∷ [] = ap (λ t. acc ++ t) (sym (append-nil (c ∷ s))) ∙ e in
      let ends : last_byte c s ≡ 0 =
        sym (last_of-append acc c s) ∙ ap last_of whole ∙ last_of-append r 0 [] in
      let short : leb max_response_length (length (acc ++ c ∷ s)) ≡ false =
        ground (arith, ap length whole, length-append {0} r (0 ∷ [])) in
      rw q (rw short (rw ends (rw (whole, same) refl)))
  accumulate-Delivers (suc fuel) acc (c ∷ s) (t ∷ ts) r w w' e n h b f (v, q, rest) =
      let long : (acc ++ c ∷ s) ++ concat (t ∷ ts) ≡ r ++ 0 ∷ [] =
        append_assoc acc (c ∷ s) (concat (t ∷ ts)) ∙ e in
      let front : Free 0 (acc ++ c ∷ s) =
        front-Free (acc ++ c ∷ s) (concat (t ∷ ts)) r long
          (λ z. n.1.0 (front_empty t (concat ts) z)) h in
      let goes_on : (last_byte c s == 0) ≡ false =
        last_byte-Free c s (Free-back acc (c ∷ s) front) in
      let short : leb max_response_length (length (acc ++ c ∷ s)) ≡ false = ground (
        arith,
        ap length long,
        length-append {0} r (0 ∷ []),
        length-append {0} (acc ++ c ∷ s) (concat (t ∷ ts)),
      ) in
      rw q (
        rw short (
          rw goes_on
            (accumulate-Delivers fuel (acc ++ c ∷ s) t ts r v w' long n.1 h b (omega arith) rest)))

  -- A response that is shorter than the client allows is read whole, and nothing behind it, in whatever
  -- pieces the network hands it out, if no piece is empty and the text itself has no terminator; and
  -- the client takes it for the text that was sent.
  pub response_framing :
      (r s : Text) (ss : List Text) (w w' : W)
      → Free 0 r
      → length r + 1 < max_response_length
      → concat (s ∷ ss) ≡ r ++ 0 ∷ []
      → All (λ (p : Text). p ≢ []) (s ∷ ss)
      → Delivers (s ∷ ss) w w'
      → (accumulate_response net w ≡ (returns (ok, at (r ++ 0 ∷ [])), w'))
        × (c_string (r ++ 0 ∷ []) ≡ r)
  unfolding accumulate_response
  response_framing r s ss w w' h b e n d =
      let few = pieces_bound (s ∷ ss) n in
      (
        accumulate-Delivers max_response_length [] s ss r w w' e n h b
            (omega (arith, ap length e, length-append {0} r (0 ∷ []), few)) d,
        c_string-terminated r h,
      )

  -- One round of the loop ends it, or leaves at least one byte more and fewer than the limit.
  round-ends :
      (more : Text → Call W (Status × Out Text)) (acc : Text) (r : Received × W)
      → ((t : Text) (v : W)
          → suc (length acc) ≤ length t
          → length t < max_response_length
          → (more t v).0 ≢ unfinished)
      → (received net more acc r).0 ≢ unfinished
  round-ends more acc (broken, v) k = λ e. cc
  round-ends more acc (bytes [], v) k = λ e. cc
  round-ends more acc (bytes (c ∷ s), v) k =
      elim (Bool-cases (leb max_response_length (length (acc ++ c ∷ s)))) [
        | inl long ↦ rw long (λ e. cc)
        | inr short ↦ elim (Bool-cases (last_byte c s == 0)) [
          | inl ends ↦ rw short (rw ends (λ e. cc))
          | inr on ↦ rw short (
              rw on
                (k (acc ++ c ∷ s) v (omega (arith, length-append {0} acc (c ∷ s))) (ground arith)))
        ]
      ]

  accumulate-ends :
      (fuel : ℕ) (acc : Text) (w : W)
      → length acc < max_response_length
      → max_response_length ≤ length acc + fuel
      → (accumulate net fuel acc w).0 ≢ unfinished
  unfolding accumulate
  accumulate-ends zero acc w b f = absurd (omega arith)
  accumulate-ends (suc fuel) acc w b f =
      round-ends (accumulate net fuel) acc (net.recv w)
        λ t v more less. accumulate-ends fuel t v less (omega arith)

  accumulate_response-ends : (w : W) → (accumulate_response net w).0 ≢ unfinished
  unfolding accumulate_response
  accumulate_response-ends w = accumulate-ends max_response_length [] w (omega arith) (omega arith)

  closed-ends :
      (keep : Bool) (r : Outcome (Status × Out Text) × W)
      → r.0 ≢ unfinished
      → (Client.continue r.0 (closed net keep) r.1).0 ≢ unfinished
  closed-ends true (returns a, w) h = λ e. cc
  closed-ends false (returns a, w) h = λ e. cc
  closed-ends keep (undefined, w) h = λ e. cc
  closed-ends keep (unfinished, w) h = absurd (h refl)

  polled-ends : (r : Polled × W) → (polled net r).0 ≢ unfinished
  polled-ends (failed, w) = λ e. cc
  polled-ends (expired, w) = λ e. cc
  polled-ends (other_event, w) = λ e. cc
  polled-ends (readable, w) = accumulate_response-ends w

  sent-ends : (timeout : ℤ) (r : Bool × W) → (sent net timeout r).0 ≢ unfinished
  sent-ends timeout (false, w) = λ e. cc
  sent-ends timeout (true, w) = polled-ends (net.poll timeout w)

  transact-ends :
      (self : Socket) (request : Text) (timeout : ℤ) (status : Status) (w : W)
      → (transact net self request timeout status w).0 ≢ unfinished
  transact-ends self request timeout (pos zero) w =
      closed-ends self.keep_connection_open (sent net timeout (net.send request w))
        (sent-ends timeout (net.send request w))
  transact-ends self request timeout (pos (suc n)) w = λ e. cc
  transact-ends self request timeout (negsuc n) w = λ e. cc

  opened-ends :
      (self : Socket) (request : Text) (timeout : ℤ) (r : Opened × W)
      → (Client.continue
          (opened_as net r).0
          (transact net self request timeout)
          (opened_as net r).1).0
        ≢ unfinished
  opened-ends self request timeout (opened, w) = transact-ends self request timeout ok w
  opened-ends self request timeout (no_socket, w) = λ e. cc
  opened-ends self request timeout (no_option, w) = λ e. cc
  opened-ends self request timeout (refused, w) = λ e. cc

  connected-ends :
      (keep : Bool) (self : Socket) (request : Text) (timeout : ℤ) (w : W)
      → (Client.continue
          (connected net keep w).0
          (transact net self request timeout)
          (connected net keep w).1).0
        ≢ unfinished
  unfolding open_socket
  connected-ends true self request timeout w = transact-ends self request timeout ok w
  connected-ends false self request timeout w =
      opened-ends self request timeout (net.open_connection w)

  -- The fuel is never used up when a request is sent, whatever the calls of the network return: each
  -- round of the loop reads a byte, or leads to what C leaves undefined, and the longest response ends
  -- the loop.
  pub socket_send-ends :
      (self : Socket) (request : Text) (timeout : ℤ) (w : W)
      → (socket_send net self request timeout w).0 ≢ unfinished
  unfolding socket_send
  socket_send-ends self request timeout w =
      connected-ends self.keep_connection_open self request timeout w
