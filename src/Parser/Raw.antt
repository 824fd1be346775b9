-- ===== src/Parser/Raw.antt =====
-- libgstd/gstd_parser.c: create, read, update and delete on the resource that a path names.
use gstd_1_x.Base.{Text, codes, List, [], ◌∷◌, Option, none, some, space, get_elem?, if◌then◌else◌}
use gstd_1_x.ReturnCode.{ReturnCode, null_argument, bad_command, bad_value}
use gstd_1_x.Action.{pure, return, undefined, ◌>>=◌, ◌>>◌, check}
use gstd_1_x.GLib.{GLib}
use gstd_1_x.Object
use gstd_1_x.Object.{
  ObjectTree, Out, unset, at, Command, set_response, object_create, object_read, object_update,
  object_delete, object_to_string,
}
use gstd_1_x.Session.{get_by_uri}
use gstd_1_x.Parser.Words.{Argument, null, str, wild, second_token, with_argument}

module _ (g : GLib) (t : ObjectTree) where
  open t use {Node, Store}

  -- The new resource is described, if it can be read back. A pointer that the read has not written
  -- is looked at all the same.
  unfoldable pub describe_new : ReturnCode × Out Node → Command Store Unit
  describe_new (code, unset) = undefined
  describe_new (code, Object.null) = pure tt
  describe_new (code, at new) = do ignored ← object_to_string t (some new); pure tt

  unfoldable pub create_named : Option Node → Option Text → Option Text → Command Store Unit
  unfolding describe_new
  create_named obj name description = do
    code ← object_create t obj name description
    check code
    new ← object_read t obj name
    describe_new new

  -- {<name>, <description>}: an empty argument has no tokens, and tokens[1] is read behind the end of
  -- their vector.
  unfoldable pub create_tokens : Option Node → List Text → Command Store Unit
  unfolding create_named
  create_tokens obj [] = undefined
  create_tokens obj (name ∷ rest) = create_named obj (some name) (get_elem? rest 0)

  -- gstd_parser_create
  unfoldable pub create : Option Node → Argument → Command Store Unit
  unfolding create_tokens
  create obj null = create_named obj none none
  create obj (str args) = create_tokens obj (g.strsplit args space 2)
  create obj wild = undefined

  -- gstd_parser_read
  unfoldable pub read : Option Node → Command Store Unit
  read obj = do code ← object_to_string t obj; check code

  -- gstd_parser_update
  unfoldable pub update : Option Node → Argument → Command Store Unit
  update obj args = with_argument args bad_value λ value. do
    set_response none
    code ← object_update t obj (some value)
    check code
    ignored ← object_to_string t obj
    pure tt

  -- gstd_parser_delete
  unfoldable pub delete : Option Node → Argument → Command Store Unit
  delete obj args =
      with_argument args null_argument
        λ name. do set_response none; code ← object_delete t obj (some name); check code

  -- The four verbs of gstd_parser_parse_raw_cmd, compared in the order of the code.
  unfoldable pub act : Text → Option Node → Argument → Command Store Unit
  unfolding create read update delete
  act action node rest =
      if g.strcasecmp (codes "CREATE") (some action)
      then create node rest
      else if g.strcasecmp (codes "READ") (some action)
      then read node
      else if g.strcasecmp (codes "UPDATE") (some action)
      then update node rest
      else if g.strcasecmp (codes "DELETE") (some action)
      then delete node rest
      else return bad_command

  -- A path that leads to no object ends the command, without an error.
  unfoldable pub act_on : Text → Argument → Option Node → Command Store Unit
  unfolding act
  act_on action rest none = pure tt
  act_on action rest (some node) = act action (some node) rest

  -- tokens[0] is the path, NULL standing for the root, and tokens[1] is passed on.
  abbrev uri_token : List Text → Text
  uri_token [] = codes "/"
  uri_token (uri ∷ rest) = uri

  -- gstd_parser_parse_raw_cmd
  unfoldable pub raw_cmd : Option Text → Argument → Command Store Unit
  unfolding act_on second_token
  raw_cmd none args = return null_argument
  raw_cmd (some action) args = with_argument args null_argument λ line.
      let tokens = g.strsplit line space 2 in
      do node ← get_by_uri t g (uri_token tokens); act_on action (second_token tokens) node
