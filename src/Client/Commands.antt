-- ===== src/Client/Commands.antt =====
-- libgstc/c/libgstc.c: a request is composed and sent, and the server's code is the status.
use gstd_1_x.Base.{ℤ, pos, zero, Text, codes, space, ◌∷◌, ◌++◌, Option, none, some}
use gstd_1_x.Object
use gstd_1_x.Object.{Out, unset, at}
use gstd_1_x.Client.{Status, null_argument, not_found, Call, undefined, pure, ◌>>=◌, Network}
use gstd_1_x.Client.Socket.{Socket, c_string, socket_send}
use gstd_1_x.Client.Json.{Jansson, Reading, get_int}

-- struct _GstClient
pub record Client : Type 0 where
  pub socket : Socket
  pub timeout : ℤ

module _ {W : Type 0} where
  -- gstc_assert_and_ret_val (NULL != argument, GSTC_NULL_ARGUMENT)
  abbrev pub given : Option Text → (Text → Call W Status) → Call W Status
  given none k = pure null_argument
  given (some s) k = k s

  -- The same, where something else is returned too.
  abbrev pub given_out :
      {A : Type 0} → Option Text → (Text → Call W (Status × Option A)) → Call W (Status × Option A)
  given_out none k = pure (null_argument, none)
  given_out (some s) k = k s

-- Two words with a space in between: CREATE_FORMAT and its siblings.
abbrev pub words : Text → Text → Text
words a b = a ++ space ∷ b

module _ {W : Type 0} (net : Network W) (j : Jansson) where
  -- gstc_response_get_code, with what is written to the code
  abbrev pub response_get_code : Out Text → Call W (Reading j ℤ)
  response_get_code unset w = (undefined, w)
  response_get_code Object.null w = pure (null_argument, none) w
  response_get_code (at s) w = pure (get_int j (c_string s) (codes "code")) w

  -- The server's code, or what went wrong on the way to it.
  abbrev pub forwarded : Reading j ℤ → Status
  forwarded (pos zero, none) = not_found
  forwarded (pos zero, some code) = code
  forwarded (status, code) = status

  abbrev pub answered : Status × Out Text → Call W (Status × Out Text)
  answered (pos zero, response) = do
    reading ← response_get_code response
    pure (forwarded reading, response)
  answered (status, response) = pure (status, response)

  -- gstc_cmd_send_get_response, with what is written to *response
  unfoldable pub cmd_send_get_response : Client → Text → ℤ → Call W (Status × Out Text)
  unfolding socket_send get_int
  cmd_send_get_response client request timeout = do
    r ← socket_send net client.socket request timeout
    answered r

  -- gstc_cmd_send
  unfoldable pub cmd_send : Client → Text → Call W Status
  unfolding cmd_send_get_response
  cmd_send client request = do r ← cmd_send_get_response client request client.timeout; pure r.0

  -- gstc_cmd_create
  unfoldable pub cmd_create : Client → Text → Option Text → Call W Status
  unfolding cmd_send
  cmd_create client place what =
      given what λ w. cmd_send client (words (codes "create") (words place w))

  -- gstc_cmd_read
  unfoldable pub cmd_read : Client → Text → ℤ → Call W (Status × Out Text)
  unfolding cmd_send_get_response
  cmd_read client what timeout = cmd_send_get_response client (words (codes "read") what) timeout

  -- gstc_cmd_update
  unfoldable pub cmd_update : Client → Text → Option Text → Call W Status
  unfolding cmd_send
  cmd_update client what how =
      given how λ h. cmd_send client (words (codes "update") (words what h))

  -- gstc_cmd_delete
  unfoldable pub cmd_delete : Client → Text → Option Text → Call W Status
  unfolding cmd_send
  cmd_delete client place what =
      given what λ w. cmd_send client (words (codes "delete") (words place w))

  -- A response that has been read, with what a function takes from it. It is looked at only if the
  -- status is GSTC_OK.
  abbrev pub taken : {A : Type 0} → (Text → Reading j A) → Status × Out Text → Call W (Reading j A)
  taken f (pos zero, unset) w = (undefined, w)
  taken f (pos zero, Object.null) w = pure (null_argument, none) w
  taken f (pos zero, at s) w = pure (f (c_string s)) w
  taken f (status, response) w = pure (status, none) w
