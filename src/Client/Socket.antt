-- ===== src/Client/Socket.antt =====
-- libgstc/c/libgstc_socket.c: a request is sent, and the response is read up to its terminator.
use gstd_1_x.Base.{
  ℕ, zero, suc, Text, Bool, true, false, [], ◌∷◌, ◌++◌, length, leb, ◌==◌, if◌then◌else◌, ℤ, pos,
}
use gstd_1_x.Object.{Out, unset, null, at}
use gstd_1_x.Client.{
  Status, ok, unreachable, send_error, recv_error, socket_error, socket_timeout, long_response,
  Outcome, returns, undefined, unfinished, Call, pure, ◌>>=◌, Opened, opened, no_socket, no_option,
  refused, Polled, failed, expired, readable, other_event, Received, broken, bytes, Network,
}

-- GSTC_MAX_RESPONSE_LENGTH
abbrev pub max_response_length : ℕ
max_response_length = 10485760

-- buffer[read - 1]
abbrev pub last_byte : ℕ → Text → ℕ
last_byte c [] = c
last_byte c (d ∷ s) = last_byte d s

-- A response as the string that C takes it for.
abbrev pub c_string : Text → Text
c_string [] = []
c_string (c ∷ s) = if c == 0 then [] else c ∷ c_string s

-- struct _GstcSocket
pub record Socket : Type 0 where
  pub keep_connection_open : Bool

module _ {W : Type 0} (net : Network W) where
  abbrev pub opened_as : Opened × W → Outcome Status × W
  opened_as (opened, w) = (returns ok, w)
  opened_as (no_socket, w) = (returns socket_error, w)
  opened_as (no_option, w) = (returns socket_error, net.close w)
  opened_as (refused, w) = (returns unreachable, net.close w)

  -- open_socket
  unfoldable pub open_socket : Call W Status
  open_socket w = opened_as (net.open_connection w)

  -- What the response is before anything has been received.
  abbrev pub so_far : Text → Out Text
  so_far [] = null
  so_far (c ∷ s) = at (c ∷ s)

  -- Whether the response is too long, and whether it has ended; otherwise the loop goes on.
  abbrev pub grown :
      Bool → Bool → (Text → Call W (Status × Out Text)) → Text → Call W (Status × Out Text)
  grown true ended more acc w = (returns (long_response, null), w)
  grown false true more acc w = (returns (ok, at acc), w)
  grown false false more acc w = more acc w

  -- The bytes are appended, and the loop goes on with `more` unless they end in the terminator. With
  -- no byte at all buffer[-1] is looked at.
  abbrev pub appended :
      (Text → Call W (Status × Out Text)) → Text → Text → Call W (Status × Out Text)
  appended more acc [] w = (undefined, w)
  appended more acc (c ∷ s) w =
      grown (leb max_response_length (length (acc ++ c ∷ s))) (last_byte c s == 0) more
        (acc ++ c ∷ s) w

  abbrev pub received :
      (Text → Call W (Status × Out Text)) → Text → Received × W → Outcome (Status × Out Text) × W
  received more acc (broken, w) = (returns (recv_error, so_far acc), w)
  received more acc (bytes s, w) = appended more acc s w

  -- The loop of accumulate_response.
  unfoldable pub accumulate : ℕ → Text → Call W (Status × Out Text)
  accumulate zero acc w = (unfinished, w)
  accumulate (suc fuel) acc w = received (accumulate fuel) acc (net.recv w)

  -- accumulate_response: each round reads a byte at least, so that the longest response bounds them.
  unfoldable pub accumulate_response : Call W (Status × Out Text)
  accumulate_response = accumulate max_response_length []

  abbrev pub connected : Bool → Call W Status
  connected true = pure ok
  connected false = open_socket

  abbrev pub closed : Bool → Status × Out Text → Call W (Status × Out Text)
  closed true r w = (returns r, w)
  closed false r w = (returns r, net.close w)

  abbrev pub polled : Polled × W → Outcome (Status × Out Text) × W
  polled (failed, w) = (returns (socket_error, unset), w)
  polled (expired, w) = (returns (socket_timeout, unset), w)
  polled (other_event, w) = (returns (socket_error, unset), w)
  polled (readable, w) = accumulate_response w

  abbrev pub sent : ℤ → Bool × W → Outcome (Status × Out Text) × W
  sent timeout (false, w) = (returns (send_error, unset), w)
  sent timeout (true, w) = polled (net.poll timeout w)

  abbrev pub transact : Socket → Text → ℤ → Status → Call W (Status × Out Text)
  transact self request timeout (pos zero) = do
    r ← λ w. sent timeout (net.send request w)
    closed self.keep_connection_open r
  transact self request timeout status = pure (status, unset)

  -- gstc_socket_send, with what is written to *response. A connection that is not kept is opened
  -- first and closed at the end.
  unfoldable pub socket_send : Socket → Text → ℤ → Call W (Status × Out Text)
  unfolding open_socket
  socket_send self request timeout = do
    status ← connected self.keep_connection_open
    transact self request timeout status
