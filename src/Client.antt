-- ===== src/Client.antt =====
-- libgstc/c: the client library in C. Here is what its functions share: the status that each returns
-- (libgstc.h), and the calls that they make of the network.
pub mod Socket
pub mod Framing
pub mod Json
pub mod Commands
pub mod Pipelines
pub mod Elements
pub mod Bus
pub mod Orders
use gstd_1_x.Base.{ℕ, ℤ, pos, negsuc, Text, Bool}

-- GstcStatus is an int: the enumerators of the client are negative or zero, and a code of the server
-- is handed on as it is.
abbrev pub Status : Type 0
Status = ℤ

abbrev pub ok : Status
ok = pos 0

abbrev pub null_argument : Status
null_argument = negsuc 0

abbrev pub unreachable : Status
unreachable = negsuc 1

abbrev pub type_error : Status
type_error = negsuc 4

abbrev pub malformed : Status
malformed = negsuc 5

abbrev pub not_found : Status
not_found = negsuc 6

abbrev pub send_error : Status
send_error = negsuc 7

abbrev pub recv_error : Status
recv_error = negsuc 8

abbrev pub socket_error : Status
socket_error = negsuc 9

abbrev pub thread_error : Status
thread_error = negsuc 10

abbrev pub bus_timeout : Status
bus_timeout = negsuc 11

abbrev pub socket_timeout : Status
socket_timeout = negsuc 12

abbrev pub long_response : Status
long_response = negsuc 13

-- What a call comes to: it returns, does what C leaves undefined, or has used up the fuel of its loop.
pub data Outcome (A : Type 0) : Type 0 where
  returns : A → Outcome A
  undefined : Outcome A
  unfinished : Outcome A

-- A call over a world.
abbrev pub Call : Type 0 → Type 0 → Type 0
Call W A = W → Outcome A × W

module _ {W : Type 0} {A : Type 0} where
  abbrev pub pure : A → Call W A
  pure a w = (returns a, w)

module _ {W A B : Type 0} where
  abbrev pub continue : Outcome A → (A → Call W B) → Call W B
  continue (returns a) f w = f a w
  continue undefined f w = (undefined, w)
  continue unfinished f w = (unfinished, w)

  infixl 5 ◌>>=◌ ◌>>◌
  abbrev pub ◌>>=◌ : Call W A → (A → Call W B) → Call W B
  ◌>>=◌ m f w = continue (m w).0 f (m w).1

  abbrev pub ◌>>◌ : Call W A → Call W B → Call W B
  m >> k = m >>= λ _. k

-- How socket, setsockopt and connect end.
pub data Opened : Type 0 where
  opened no_socket no_option refused : Opened

-- How poll ends, and whether there is something to read.
pub data Polled : Type 0 where
  failed expired readable other_event : Polled

-- What recv returns: a negative number, or some bytes; no byte if the peer has closed.
pub data Received : Type 0 where
  broken : Received
  bytes : Text → Received

-- The calls of the operating system.
pub record Network (W : Type 0) : Type 0 where
  pub open_connection : W → Opened × W
  -- Whether send returns a number that is not negative.
  pub send : Text → W → Bool × W
  -- poll (ufds, 1, timeout)
  pub poll : ℤ → W → Polled × W
  pub recv : W → Received × W
  pub close : W → W
