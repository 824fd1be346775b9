-- ===== src/Examples/Server.antt =====
-- A small server for the tests: it knows one pipeline, "p0", which can be created, deleted, played
-- and stopped.
use gstd_1_x.Base.{
  ℕ, ◌≡◌, ◌+◌, ◌-◌, Text, codes, Bool, true, false, ◌&&◌, ◌||◌, not, Option, none, some, text_eq,
  if◌then◌else◌,
}
use gstd_1_x.ReturnCode.{
  ReturnCode, eok, null_argument, no_resource, existing_resource, bad_command, missing_name,
  bad_value,
}
use gstd_1_x.Object.{ObjectTree, Out, unset, at, Context}

pub data Place : Type 0 where
  root pipelines p0 state : Place

pub record Server : Type 0 where
  pub exists : Bool
  pub playing : Bool
  pub clients : ℕ

abbrev pub no_pipelines : Context Server
no_pipelines = record {
  store = record { exists = false; playing = false; clients = 0 };
  response = none;
}

abbrev is_p0 : Text → Bool
is_p0 n = text_eq n (codes "p0")

abbrev read_named : Place → Text → Server → ReturnCode × Out Place
read_named root n s =
    if text_eq n (codes "pipelines") then (eok, at pipelines) else (no_resource, unset)
read_named pipelines n s = if is_p0 n && s.exists then (eok, at p0) else (no_resource, unset)
read_named p0 n s = if text_eq n (codes "state") then (eok, at state) else (no_resource, unset)
read_named state n s = (no_resource, unset)

unfoldable pub read : Place → Option Text → Server → (ReturnCode × Out Place) × Server
read p none s = ((null_argument, unset), s)
read p (some n) s = (read_named p n s, s)

unfoldable pub create : Place → Option Text → Option Text → Server → ReturnCode × Server
create pipelines none d s = (missing_name, s)
create pipelines (some n) d s =
    if s.exists
    then (existing_resource, s)
    else (if is_p0 n
        then (eok, record { exists = true; playing = false; clients = 0 })
        else (bad_value, s))
create _ n d s = (bad_command, s)

unfoldable pub update : Place → Text → Server → ReturnCode × Server
update state v s =
    if s.exists
    then (if text_eq v (codes "playing")
        then (eok, record s { playing = true })
        else (if text_eq v (codes "null")
            then (eok, record s { playing = false })
            else (bad_value, s)))
    else (bad_value, s)
update _ v s = (bad_command, s)

unfoldable pub delete : Place → Text → Server → ReturnCode × Server
delete pipelines n s =
    if is_p0 n && s.exists
    then (eok, record { exists = false; playing = false; clients = 0 })
    else (no_resource, s)
delete _ n s = (bad_command, s)

abbrev pub to_string : Place → Server → (ReturnCode × Option Text) × Server
to_string p s = ((eok, some (if s.playing then codes "PLAYING" else codes "NULL")), s)

abbrev pub find_child : Place → Text → Server → Option Place
find_child pipelines n s = if is_p0 n && s.exists then some p0 else none
find_child _ n s = none

abbrev pub increment : Place → Server → ReturnCode × Server
increment p s = (eok, record s { clients = s.clients + 1 })

abbrev pub decrement : Place → Server → ReturnCode × Server
decrement p s = (eok, record s { clients = s.clients - 1 })

abbrev pub server : ObjectTree
server = record {
  Node = Place;
  Store = Server;
  session = root;
  create = create;
  read = read;
  update = update;
  delete = delete;
  to_string = to_string;
  find_child = find_child;
  description = λ p s. some (codes "videotestsrc ! fakesink");
  refcount = λ p s. s.clients;
  increment_refcount = increment;
  decrement_refcount = decrement;
}

-- Only a pipeline that is there plays.
abbrev pub Sane : Server → Type 0
Sane s = (s.exists || not s.playing) ≡ true
