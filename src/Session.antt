-- ===== src/Session.antt =====
-- libgstd/gstd_session.c: how a path names a resource.
pub mod Uri
use gstd_1_x.Base.{Text, List, [], ◌∷◌, Option, none, some, slash}
use gstd_1_x.ReturnCode.{ReturnCode, eok, bad_command}
use gstd_1_x.Action.{pure, return, undefined, ◌>>=◌}
use gstd_1_x.GLib.{GLib}
use gstd_1_x.Object.{ObjectTree, Out, unset, null, at, Command, object_read}

module _ (t : ObjectTree) where
  open t use {Node, Store, session}

  -- What one step of the loop makes of a read: any error is reported as a bad command, and a
  -- parent that the reader has not written is followed as it is.
  unfoldable pub child_of : ReturnCode × Out Node → Command Store (Option Node)
  child_of (eok, unset) = undefined
  child_of (eok, null) = pure none
  child_of (eok, at n) = pure (some n)
  child_of (code, out) = return bad_command

  -- The loop over the names of the path. A name that is empty is skipped.
  unfoldable pub walk : Option Node → List Text → Command Store (Option Node)
  unfolding child_of
  walk parent [] = pure parent
  walk parent ([] ∷ names) = walk parent names
  walk parent ((c ∷ name) ∷ names) = do
    r ← object_read t parent (some (c ∷ name))
    child ← child_of r
    walk child names

  -- gstd_get_by_uri; g_strsplit_set returns no NULL for a string that is not NULL.
  unfoldable pub get_by_uri : GLib → Text → Command Store (Option Node)
  unfolding walk
  get_by_uri g uri = walk (some session) (g.strsplit_set uri slash)
