-- ===== src/Http.antt =====
-- libgstd/gstd_http.c: requests over HTTP. A request becomes a line of the parser, and the code of the
-- line the status of the response. JSON-GLib and libsoup are libraries of their own.
pub mod Carried
pub mod Requests
pub mod Escape
pub mod ClockSync
pub mod Synced
pub mod Status
pub mod Callback
use gstd_1_x.Base.{
  Text, codes, Bool, true, false, List, [], ◌∷◌, ◌++◌, Option, none, some, if◌then◌else◌,
}
use gstd_1_x.ReturnCode.{
  ReturnCode, eok, bad_command, no_resource, existing_resource, bad_value, null_argument,
}
use gstd_1_x.Action.{Exit, pure, return}
use gstd_1_x.Answer.{code_of, answer}
use gstd_1_x.GLib.{GLib}
use gstd_1_x.Object.{ObjectTree, Context, Command}
use gstd_1_x.Client.Commands.{words}
use gstd_1_x.Parser.Dispatch.{parse_cmd}

-- SoupStatus, as far as the server sets it.
pub data SoupStatus : Type 0 where
  status_ok status_no_content : SoupStatus
  status_bad_request status_not_found status_method_not_allowed status_conflict : SoupStatus
  status_internal_server_error status_service_unavailable : SoupStatus

pub data Method : Type 0 where
  get post put delete options other_method : Method

-- A message as libsoup hands it over: the body is flattened, and a query may be missing.
pub record Message : Type 0 where
  pub method : Method
  pub path : Text
  pub query : Option (Text → Option Text)
  pub content_type : Option Text
  pub body : Option Text

-- What is set in the message: the status, the body, and the methods that may be used.
pub record Response : Type 0 where
  pub status : SoupStatus
  pub body : Option Text
  pub allow_methods : Text

-- The parser of JSON, and g_str_has_prefix.
pub record JsonGlib : Type 1 where
  pub Node : Type 0
  -- json_parser_load_from_data and json_parser_get_root; nothing for an error or no root.
  pub load : Text → Option Node
  pub holds_object : Node → Bool
  pub has_member : Node → Text → Bool
  pub string_member : Node → Text → Option Text
  pub str_has_prefix : Text → Text → Bool

-- get_status_code
unfoldable pub get_status_code : ReturnCode → SoupStatus
get_status_code eok = status_ok
get_status_code bad_command = status_not_found
get_status_code no_resource = status_not_found
get_status_code existing_resource = status_conflict
get_status_code bad_value = status_no_content
get_status_code _ = status_bad_request

module _ (j : JsonGlib) where
  open j use {Node}

  abbrev pub member : Node → Text → Option Text
  member root key = if j.has_member root key then j.string_member root key else none

  -- Name and description, if the root is an object.
  abbrev pub members : Option Node → Option Text × Option Text
  members none = (none, none)
  members (some root) =
      if j.holds_object root
      then (member root (codes "name"), member root (codes "description"))
      else (none, none)

  abbrev typed : Option Text → Text → Option Text × Option Text
  typed none body = (none, none)
  typed (some content_type) body =
      if j.str_has_prefix content_type (codes "application/json")
      then members (j.load body)
      else (none, none)

  -- parse_json_body: name and description
  unfoldable pub parse_json_body : Option Text → Option Text → Option Text × Option Text
  parse_json_body content_type none = (none, none)
  parse_json_body content_type (some []) = (none, none)
  parse_json_body content_type (some (c ∷ s)) = typed content_type (c ∷ s)

  -- The query is asked for what the body does not have.
  abbrev pub or_query : Option Text → Option (Text → Option Text) → Text → Option Text
  or_query (some s) query key = some s
  or_query none none key = none
  or_query none (some lookup) key = lookup key

  unfoldable pub name_of : Message → Option Text
  unfolding parse_json_body
  name_of msg = or_query (parse_json_body msg.content_type msg.body).0 msg.query (codes "name")

  unfoldable pub description_of : Message → Option Text
  unfolding parse_json_body
  description_of msg =
      or_query (parse_json_body msg.content_type msg.body).1 msg.query (codes "description")

-- A request is responded to, and changes the resources; or the server does what C leaves undefined, or
-- is in a loop for ever.
pub data Responded (S : Type 0) : Type 0 where
  responded : Response → S → Responded S
  undefined : Responded S
  endless : Responded S

-- The methods that server_callback allows.
abbrev pub all_methods : Text
all_methods = codes "PUT, GET, POST, DELETE"

module _ (g : GLib) (t : ObjectTree) where
  open t use {Store}

  unfoldable pub do_get : Text → Command Store Unit
  unfolding parse_cmd
  do_get path = parse_cmd g t (words (codes "read") path)

  -- The check of the name by g_return_val_if_fail comes before that of the code itself.
  unfoldable pub do_post : Option Text → Option Text → Text → Command Store Unit
  unfolding parse_cmd
  do_post none description path = return null_argument
  do_post (some name) (some description) path =
      parse_cmd g t (words (codes "create") (words path (words name description)))
  do_post (some name) none path = parse_cmd g t (words (codes "create") (words path name))

  unfoldable pub do_put : Option Text → Text → Command Store Unit
  unfolding parse_cmd
  do_put none path = return null_argument
  do_put (some name) path = parse_cmd g t (words (codes "update") (words path name))

  unfoldable pub do_delete : Option Text → Text → Command Store Unit
  unfolding parse_cmd
  do_delete none path = return null_argument
  do_delete (some name) path = parse_cmd g t (words (codes "delete") (words path name))

  -- What do_request calls, by the method.
  abbrev pub performed : Method → Option Text → Option Text → Text → Command Store Unit
  performed get name description path = do_get path
  performed post name description path = do_post name description path
  performed put name description path = do_put name path
  performed delete name description path = do_delete name path
  performed options name description path = pure tt
  performed other_method name description path = return bad_command

  abbrev pub with_code : Option ReturnCode → Context Store → Responded Store
  with_code none c = undefined
  with_code (some code) c =
      responded
        (record {
          status = get_status_code code;
          body = some (answer code c.response);
          allow_methods = all_methods;
        })
        c.store

  abbrev pub executed : Exit {0} Unit × Context Store → Responded Store
  executed (exit, c) = with_code (code_of exit) c

  -- do_request
  unfoldable pub do_request : JsonGlib → Message → Store → Responded Store
  unfolding name_of description_of do_get do_post do_put do_delete get_status_code answer
  do_request j msg s = executed (
      performed msg.method (name_of j msg) (description_of j msg) msg.path
        (record { store = s; response = none }))
