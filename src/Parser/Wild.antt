-- ===== src/Parser/Wild.antt =====
-- The lines that the safety of commands leaves out.
use gstd_1_x.Base.{
  Text, codes, ◌≡◌, refl, ◌∙◌, [], ◌∷◌, ◌++◌, map, to_lower, some, slash, space, Free, inl, inr,
  ◌⊎◌,
}
use gstd_1_x.Action.{fault, pure}
use gstd_1_x.GLib.{GLib}
use gstd_1_x.Object.{ObjectTree, Context}
use gstd_1_x.Session.{walk, get_by_uri}
use gstd_1_x.Session.Uri.{get_by_uri-slash}
use gstd_1_x.Parser.Words.{str, wild}
use gstd_1_x.Parser.Raw.{act, raw_cmd}
use gstd_1_x.Parser.Dispatch.{cmds, parse_cmd}
use gstd_1_x.Parser.Requests.{parse_cmd-word}

module _ (g : GLib) (t : ObjectTree) where
  -- The path "/" names the session.
  get_by_uri-root : get_by_uri t g (slash ∷ []) ≡ pure (some t.session)
  get_by_uri-root =
      get_by_uri-slash g t [] ∙ unfold get_by_uri walk in rw (g.strsplit_set_empty slash)

  module _ (w : Text) (c : Context t.Store) where
    raw_wild : raw_cmd g t (some w) (str []) c ≡ act g t w (some t.session) wild c
    unfolding raw_cmd
    raw_wild = rw (g.strsplit_empty space 2, get_by_uri-root)

    act_create-wild :
        map to_lower w ≡ codes "create" → act g t w (some t.session) wild c ≡ (fault, c)
    unfolding act
    act_create-wild e = simp (g.strcasecmp_some, e)

    act_update-wild :
        map to_lower w ≡ codes "update" → act g t w (some t.session) wild c ≡ (fault, c)
    unfolding act
    act_update-wild e = simp (g.strcasecmp_some, e)

    act_delete-wild :
        map to_lower w ≡ codes "delete" → act g t w (some t.session) wild c ≡ (fault, c)
    unfolding act
    act_delete-wild e = simp (g.strcasecmp_some, e)

    line_wild :
        (v : Text)
        → Free space w
        → map to_lower w ≡ v
        → (v ≡ codes "create") ⊎ (v ≡ codes "update") ⊎ (v ≡ codes "delete")
        → parse_cmd g t (w ++ space ∷ []) c ≡ raw_cmd g t (some w) (str []) c
    unfolding cmds
    line_wild v h e (inl q) = rw (parse_cmd-word g t w [] h, e, q)
    line_wild v h e (inr (inl q)) = rw (parse_cmd-word g t w [] h, e, q)
    line_wild v h e (inr (inr q)) = rw (parse_cmd-word g t w [] h, e, q)

-- A line that is CREATE, UPDATE or DELETE in letters of either case and then one space, with no
-- more, is undefined whatever the resources are: the empty argument has no token, and the pointer
-- behind the end of the vector of tokens is looked at.
pub parse_cmd-trailing_space :
    (g : GLib) (t : ObjectTree) (w : Text) (c : Context t.Store)
    → Free space w
    → (map to_lower w ≡ codes "create")
      ⊎ (map to_lower w ≡ codes "update")
      ⊎ (map to_lower w ≡ codes "delete")
    → parse_cmd g t (w ++ space ∷ []) c ≡ (fault, c)
parse_cmd-trailing_space g t w c h (inl e) =
    line_wild g t w c (codes "create") h e (inl refl) ∙ raw_wild g t w c ∙ act_create-wild g t w c e
parse_cmd-trailing_space g t w c h (inr (inl e)) =
    line_wild g t w c (codes "update") h e (inr (inl refl))
    ∙ raw_wild g t w c
    ∙ act_update-wild g t w c e
parse_cmd-trailing_space g t w c h (inr (inr e)) =
    line_wild g t w c (codes "delete") h e (inr (inr refl))
    ∙ raw_wild g t w c
    ∙ act_delete-wild g t w c e
