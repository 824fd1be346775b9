-- ===== src/Examples/Wire.antt =====
-- The client library and the small server, through a network that carries one byte at a time.
use gstd_1_x.Base.{
  ℕ, zero, suc, ◌+◌, ◌*◌, ◌-◌, ◌<◌, ◌≡◌, ◌≢◌, refl, ap, Text, codes, Bool, true, false, ◌&&◌, List,
  [], ◌∷◌, ◌++◌, map, Option, none, some, leb, length, if◌then◌else◌, text_eq, ℤ, pos, negsuc, All,
  Free, arith,
}
use gstd_1_x.ReturnCode.{number_of, bad_command, eok}
use gstd_1_x.Action.{done}
use gstd_1_x.Answer.{answer}
use gstd_1_x.GLib.Reference.{reference}
use gstd_1_x.Object.{Context, at}
use gstd_1_x.Client
use gstd_1_x.Client.{
  returns, unfinished, ok, Network, Opened, opened, refused, readable, Received, bytes,
}
use gstd_1_x.Client.Socket.{c_string, accumulate_response}
use gstd_1_x.Client.Framing.{concat, response_framing}
use gstd_1_x.Client.Pipelines.{pipeline_create_ref}
use gstd_1_x.SocketServer.Limits.{closed_early}
use gstd_1_x.Parser.Dispatch.{parse_cmd}
use gstd_1_x.Client.Json.{Jansson, get_int, get_value}
use gstd_1_x.Client.Commands.{Client, words}
use gstd_1_x.Client.Orders.{play, emit_action, line, request, call, parse_cmd-client}
use gstd_1_x.Parser.Requests.{run, literal}
use gstd_1_x.SocketServer.Loopback.{Cutting, network, idle}
use gstd_1_x.SocketServer.EndToEnd.{IsCarried, client_order, create_ref_fails}
use gstd_1_x.Examples.Server.{Server, server}

-- What is left of an answer once its code has been read.
data Json : Type 0 where
  number : ℕ → Json
  object : ℕ → Json

abbrev pub numeral : ℕ → Text → ℕ
numeral n [] = n
numeral n (c ∷ s) =
    let rest = numeral (n * 10 + (c - 48)) s in if leb 48 c && leb c 57 then rest else n

abbrev skip : ℕ → Text → Text
skip zero s = s
skip (suc n) [] = []
skip (suc n) (c ∷ s) = skip n s

abbrev number_in : Json → Option Json
number_in (number n) = none
number_in (object n) = some (number n)

abbrev is_number : Json → Bool
is_number (number n) = true
is_number (object n) = false

abbrev value : Json → ℤ
value (number n) = pos n
value (object n) = pos 0

-- It reads the code of an answer, and nothing else.
abbrev codes_only : Jansson
codes_only = record {
  Json = Json;
  loads = λ s. some (object (numeral 0 (skip 13 s)));
  object_get = λ o n. if text_eq n (codes "code") then number_in o else none;
  is_object = λ o. true;
  is_array = λ o. false;
  is_integer = is_number;
  is_string = λ o. false;
  is_null = λ o. false;
  integer_value = value;
  string_value = λ o. [];
  items = λ o. [];
}

abbrev byte_first : Text → Text
byte_first [] = []
byte_first (c ∷ s) = c ∷ []

abbrev singles : Text → List Text
singles [] = []
singles (c ∷ s) = (c ∷ []) ∷ singles s

abbrev byte_others : Text → List Text
byte_others [] = []
byte_others (c ∷ s) = singles s

singles-concat : (s : Text) → concat (singles s) ≡ s
singles-concat [] = refl
singles-concat (c ∷ s) = ap (λ t. c ∷ t) (singles-concat s)

singles-filled : (s : Text) → All (λ (p : Text). p ≢ []) (singles s)
singles-filled [] = tt
singles-filled (c ∷ s) = (λ e. cc, singles-filled s)

bytes_whole : (s : Text) → s ≢ [] → concat (byte_first s ∷ byte_others s) ≡ s
bytes_whole [] n = absurd (n refl)
bytes_whole (c ∷ s) n = singles-concat (c ∷ s)

bytes_filled : (s : Text) → s ≢ [] → All (λ (p : Text). p ≢ []) (byte_first s ∷ byte_others s)
bytes_filled [] n = absurd (n refl)
bytes_filled (c ∷ s) n = singles-filled (c ∷ s)

abbrev byte_by_byte : Cutting
byte_by_byte = record {
  first = byte_first;
  others = byte_others;
  whole = bytes_whole;
  filled = bytes_filled;
}

abbrev client : Client
client = record { socket = record { keep_connection_open = false }; timeout = negsuc 0 }

abbrev one : Server
one = record { exists = true; playing = false; clients = 0 }

abbrev now_playing : Server
now_playing = record { exists = true; playing = true; clients = 0 }

played :
    run reference server (request (play (codes "p0"))) (record { store = one; response = none })
    ≡ (done tt, record { store = now_playing; response = some (codes "PLAYING") })
unfolding run gstd_1_x.Session.walk gstd_1_x.Object.object_read gstd_1_x.Examples.Server.read
    gstd_1_x.Parser.Raw.update gstd_1_x.Object.object_update gstd_1_x.Examples.Server.update
    gstd_1_x.Object.object_to_string
played = refl

-- A test for strings that have no zero byte.
abbrev is_string : Text → Bool
is_string [] = true
is_string (c ∷ s) = leb 1 c && is_string s

is_string-Free : (s : Text) → is_string s ≡ true → Free 0 s
is_string-Free [] h = tt
is_string-Free (c ∷ s) h = ground (arith, is_string-Free s)

play_line : Free 0 (line (play (codes "p0")))
play_line = is_string-Free (line (play (codes "p0"))) refl

play_answer : Free 0 (answer eok (some (codes "PLAYING")))
unfolding answer gstd_1_x.Base.digits gstd_1_x.ReturnCode.code_to_string
play_answer = is_string-Free (answer eok (some (codes "PLAYING"))) refl

play_answer-length : length (answer eok (some (codes "PLAYING"))) ≡ 69
unfolding answer gstd_1_x.Base.digits gstd_1_x.ReturnCode.code_to_string
play_answer-length = refl

play-IsCarried : IsCarried codes_only (line (play (codes "p0"))) eok (some (codes "PLAYING"))
unfolding answer get_int get_value gstd_1_x.Base.digits gstd_1_x.ReturnCode.code_to_string
play-IsCarried = record {
  message_fits = omega arith;
  message_string = play_line;
  answer_fits = omega (arith, play_answer-length);
  answer_string = play_answer;
  answer_code = refl;
}

client_order_example :
    call reference
      (network reference server byte_by_byte)
      codes_only
      client
      (play (codes "p0"))
      (idle reference server byte_by_byte one)
    ≡ (returns (pos (number_of eok)), idle reference server byte_by_byte now_playing)
client_order_example =
    client_order reference server byte_by_byte codes_only client (play (codes "p0")) one (done tt)
      (record { store = now_playing; response = some (codes "PLAYING") }) eok (literal _ refl)
      played refl play-IsCarried

parse_cmd-client_example :
    parse_cmd reference server (line (emit_action (codes "p0") (codes "src") (codes "push")))
    ≡ run reference server (request (emit_action (codes "p0") (codes "src") (codes "push")))
parse_cmd-client_example =
    parse_cmd-client reference server (emit_action (codes "p0") (codes "src") (codes "push"))
      (literal _ refl, literal _ refl, literal _ refl)

abbrev create_ref_line : Text
create_ref_line =
    words (codes "pipeline_crete_ref") (words (codes "p1") (codes "fakesrc ! fakesink"))

create_ref_line-Free : Free 0 create_ref_line
create_ref_line-Free = is_string-Free create_ref_line refl

refusal-Free : Free 0 (answer bad_command none)
unfolding answer gstd_1_x.Base.digits gstd_1_x.ReturnCode.code_to_string
refusal-Free = is_string-Free (answer bad_command none) refl

refusal_length : length (answer bad_command none) ≡ 71
unfolding answer gstd_1_x.Base.digits gstd_1_x.ReturnCode.code_to_string
refusal_length = refl

create_ref-IsCarried : IsCarried codes_only create_ref_line bad_command none
unfolding answer get_int get_value gstd_1_x.Base.digits gstd_1_x.ReturnCode.code_to_string
create_ref-IsCarried = record {
  message_fits = omega arith;
  message_string = create_ref_line-Free;
  answer_fits = omega (arith, refusal_length);
  answer_string = refusal-Free;
  answer_code = refl;
}

create_ref_fails_example :
    pipeline_create_ref
      (network reference server byte_by_byte)
      codes_only
      client
      (some (codes "p1"))
      (some (codes "fakesrc ! fakesink"))
      (idle reference server byte_by_byte one)
    ≡ (returns (pos (number_of bad_command)), idle reference server byte_by_byte one)
create_ref_fails_example =
    create_ref_fails reference server byte_by_byte codes_only client (codes "p1")
      (codes "fakesrc ! fakesink") one create_ref-IsCarried

-- A network with pieces that wait to be read; a server is there, or not.
abbrev next_piece : List Text → Received × List Text
next_piece [] = (bytes [], [])
next_piece (s ∷ ss) = (bytes s, ss)

abbrev waiting : Opened → Network (List Text)
waiting how = record {
  open_connection = λ w. (how, w);
  send = λ request w. (true, w);
  poll = λ timeout w. (readable, w);
  recv = next_piece;
  close = λ w. w;
}

response_framing_example :
    (accumulate_response (waiting opened) (codes "{\"co" ∷ (codes "de\":0}" ++ 0 ∷ []) ∷ [])
      ≡ (returns (ok, at (codes "{\"code\":0}" ++ 0 ∷ [])), []))
    × (c_string (codes "{\"code\":0}" ++ 0 ∷ []) ≡ codes "{\"code\":0}")
response_framing_example =
    response_framing (waiting opened) (codes "{\"code\":0}") (codes "{\"co")
      ((codes "de\":0}" ++ 0 ∷ []) ∷ []) (codes "{\"co" ∷ (codes "de\":0}" ++ 0 ∷ []) ∷ []) []
      (is_string-Free (codes "{\"code\":0}") refl) (omega arith) refl (λ e. cc, (λ e. cc, tt))
      ((codes "de\":0}" ++ 0 ∷ []) ∷ [], refl, ([], refl, refl))

closed_early_example :
    accumulate_response (waiting opened) (codes "{\"code\"" ∷ []) ≡ (Client.undefined, [])
closed_early_example =
    closed_early (waiting opened) (codes "{\"code\"" ∷ []) (codes "{\"code\"" ∷ []) [] []
      (λ e. cc, tt) (is_string-Free (codes "{\"code\"") refl) (omega arith) ([], refl, refl) refl

spaces : ℕ → Text
spaces zero = []
spaces (suc n) = 32 ∷ spaces n

length-spaces : (n : ℕ) → length (spaces n) ≡ n
unfolding spaces
length-spaces zero = refl
length-spaces (suc n) = ap suc (length-spaces n)
