-- ===== src/Http/Requests.antt =====
-- What a request over HTTP asks for: the verb of its method, on the resource of its path.
use gstd_1_x.Base.{Text, codes, ◌≡◌, refl, List, ◌∷◌, Option, none, some, All, arith}
use gstd_1_x.ReturnCode.{ReturnCode, null_argument}
use gstd_1_x.Action
use gstd_1_x.Action.{Exit}
use gstd_1_x.Answer.{code_of, answer}
use gstd_1_x.GLib.{GLib}
use gstd_1_x.Object.{ObjectTree, Context}
use gstd_1_x.Session.Uri.{path}
use gstd_1_x.Client.Commands.{words}
use gstd_1_x.Parser.Words.{str}
use gstd_1_x.Parser.Requests.{
  Request, create_at, read_at, update_at, delete_at, IsName, run, raw_cmd-create, raw_cmd-read,
  raw_cmd-update, raw_cmd-delete, parse_cmd-word,
}
use gstd_1_x.Parser.Dispatch.{parse_cmd, cmds}
use gstd_1_x.Http.Carried.{HasStatus, status_of, Carries, name_of-carried, description_of-carried}
use gstd_1_x.Http.{
  SoupStatus, Method, get, post, put, delete, options, other_method, Message, status_bad_request,
  get_status_code, JsonGlib, name_of, description_of, responded, all_methods, do_get, do_post,
  do_put, do_delete, performed, do_request,
}

-- What a method asks for, on the resource that the names lead to. Without a name there is nothing to
-- create, update or delete.
abbrev pub asked : Method → List Text → Option Text → Option Text → Option Request
asked get ns name description = some (read_at ns)
asked post ns (some name) (some description) = some (create_at ns (str (words name description)))
asked post ns (some name) none = some (create_at ns (str name))
asked put ns (some name) description = some (update_at ns (str name))
asked delete ns (some name) description = some (delete_at ns (str name))
asked _ ns name description = none

-- A method that needs a name.
abbrev pub NeedsName : Method → Type 0
NeedsName post = Unit
NeedsName put = Unit
NeedsName delete = Unit
NeedsName _ = ⊥

module _ (g : GLib) (t : ObjectTree) where
  open t use {Store}

  module _ (n : Text) (ns : List Text) (h : IsName n) (hs : All IsName ns) where
    create_line :
        (r : Text)
        → parse_cmd g t (words (codes "create") (words (path (n ∷ ns)) r))
          ≡ run g t (create_at (n ∷ ns) (str r))
    unfolding cmds
    create_line r =
        rw (parse_cmd-word g t (codes "create") (words (path (n ∷ ns)) r) (omega arith))
          (raw_cmd-create g t n ns r refl h hs)

    update_line :
        (r : Text)
        → parse_cmd g t (words (codes "update") (words (path (n ∷ ns)) r))
          ≡ run g t (update_at (n ∷ ns) (str r))
    unfolding cmds
    update_line r =
        rw (parse_cmd-word g t (codes "update") (words (path (n ∷ ns)) r) (omega arith))
          (raw_cmd-update g t n ns r refl h hs)

    delete_line :
        (r : Text)
        → parse_cmd g t (words (codes "delete") (words (path (n ∷ ns)) r))
          ≡ run g t (delete_at (n ∷ ns) (str r))
    unfolding cmds
    delete_line r =
        rw (parse_cmd-word g t (codes "delete") (words (path (n ∷ ns)) r) (omega arith))
          (raw_cmd-delete g t n ns r refl h hs)

    read_line : parse_cmd g t (words (codes "read") (path (n ∷ ns))) ≡ run g t (read_at (n ∷ ns))
    unfolding cmds
    read_line =
        rw (parse_cmd-word g t (codes "read") (path (n ∷ ns)) (omega arith))
          (raw_cmd-read g t n ns refl h hs)

    performed-run :
        (m : Method) (name description : Option Text) (q : Request)
        → asked m (n ∷ ns) name description ≡ some q
        → performed g t m name description (path (n ∷ ns)) ≡ run g t q
    unfolding do_get do_post do_put do_delete
    performed-run get name description q e = rw (read_line) (cc e)
    performed-run post none description q e = cc e
    performed-run post (some a) none q e = rw (create_line a) (cc e)
    performed-run post (some a) (some d) q e = rw (create_line (words a d)) (cc e)
    performed-run put none description q e = cc e
    performed-run put (some a) description q e = rw (update_line a) (cc e)
    performed-run delete none description q e = cc e
    performed-run delete (some a) description q e = rw (delete_line a) (cc e)
    performed-run options name description q e = cc e
    performed-run other_method name description q e = cc e

  -- A request over HTTP, on a path of names, performs what its method asks for, with the name and the
  -- description that its body carries, or else its query; the response has the code, the status that
  -- belongs to the code, and the output, if the request ends with a code.
  pub do_request-run :
      (j : JsonGlib) (msg : Message) (n : Text) (ns : List Text) (name description : Option Text)
      (q : Request) (s : Store) (exit : Exit {0} Unit) (c : Context Store) (code : ReturnCode)
      (reported : SoupStatus)
      → msg.path ≡ path (n ∷ ns)
      → All IsName (n ∷ ns)
      → Carries j msg (codes "name") name
      → Carries j msg (codes "description") description
      → asked msg.method (n ∷ ns) name description ≡ some q
      → run g t q (record { store = s; response = none }) ≡ (exit, c)
      → code_of exit ≡ some code
      → HasStatus code reported
      → do_request g t j msg s
        ≡ responded
            (record {
              status = reported;
              body = some (answer code c.response);
              allow_methods = all_methods;
            })
            c.store
  unfolding do_request
  do_request-run j msg n ns name description q s exit c code reported p (h, hs) x y a e k z =
      rw
        (
          p,
          name_of-carried j x,
          description_of-carried j y,
          performed-run n ns h hs msg.method name description q a,
          e,
          k,
          status_of z,
        )
        refl

  nameless :
      (m : Method) (description : Option Text) (place : Text)
      → NeedsName m
      → performed g t m none description place ≡ Action.return null_argument
  unfolding do_post do_put do_delete
  nameless get description place h = absurd h
  nameless options description place h = absurd h
  nameless other_method description place h = absurd h
  nameless post description place h = refl
  nameless put description place h = refl
  nameless delete description place h = refl

  -- A request that creates, updates or deletes, without a name in its body and its query, is a bad
  -- request with the code of a null argument, and changes nothing.
  pub do_request-nameless :
      (j : JsonGlib) (msg : Message) (s : Store)
      → NeedsName msg.method
      → name_of j msg ≡ none
      → do_request g t j msg s
        ≡ responded
            (record {
              status = status_bad_request;
              body = some (answer null_argument none);
              allow_methods = all_methods;
            })
            s
  unfolding do_request get_status_code
  do_request-nameless j msg s h e =
      rw (e, nameless msg.method (description_of j msg) msg.path h) refl
