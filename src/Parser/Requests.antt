-- ===== src/Parser/Requests.antt =====
-- What a command asks for, apart from how it is written: a verb, the names that lead to a resource,
-- and an argument. The proofs take the text of a command to its request.
use gstd_1_x.Base.{
  All, ℕ, false, not, ◌&&◌, ◌==◌, Text, codes, ◌≡◌, ◌≢◌, refl, List, [], ◌∷◌, ◌++◌, map, to_lower,
  text_eq, Option, none, some, slash, space, Free, Free-append, arith, if◌then◌else◌, Bool, true,
}
use gstd_1_x.ReturnCode.{bad_command}
use gstd_1_x.Action.{pure, return, ◌>>=◌}
use mathlib.Core.Path.{fun_ext}
use gstd_1_x.GLib.{GLib}
use gstd_1_x.Object.{ObjectTree, Command}
use gstd_1_x.Session.{walk, get_by_uri}
use gstd_1_x.Session.Uri.{IsSegment, path, get_by_uri-path, get_by_uri-trailing}
use gstd_1_x.Parser.Tokens.{two_tokens}
use gstd_1_x.Parser.Words.{Argument, null, str, second_token}
use gstd_1_x.Parser.Raw.{create, read, update, delete, act_on, raw_cmd}
use gstd_1_x.Parser.Dispatch.{Callback, cmds, dispatch, parse_cmd}

pub data Request : Type 0 where
  create_at : List Text → Argument → Request
  read_at : List Text → Request
  update_at : List Text → Argument → Request
  delete_at : List Text → Argument → Request

-- A word that stands between spaces and slashes.
pub record IsName (s : Text) : Type 0 where
  pub nonempty : s ≢ []
  pub no_slash : Free slash s
  pub no_space : Free space s

-- A test for the names that the commands themselves write: a literal passes it by evaluation.
abbrev is_free : ℕ → Text → Bool
is_free d [] = true
is_free d (c ∷ s) = not (c == d) && is_free d s

abbrev is_name : Text → Bool
is_name [] = false
is_name (c ∷ s) = is_free slash (c ∷ s) && is_free space (c ∷ s)

is_free-Free : (d : ℕ) (s : Text) → is_free d s ≡ true → Free d s
is_free-Free d [] h = tt
is_free-Free d (c ∷ s) h = ground (arith, is_free-Free d s)

pub literal : (s : Text) → is_name s ≡ true → IsName s
literal [] h = cc
literal (c ∷ s) h = record {
  nonempty = λ e. cc;
  no_slash = is_free-Free slash (c ∷ s) (ground arith);
  no_space = is_free-Free space (c ∷ s) (ground arith);
}

pub IsName-IsSegment : {s : Text} → IsName s → IsSegment s
IsName-IsSegment h = record { nonempty = h.nonempty; no_slash = h.no_slash }

All-IsSegment : (ns : List Text) → All IsName ns → All IsSegment ns
All-IsSegment [] h = tt
All-IsSegment (n ∷ ns) h = (IsName-IsSegment h.0, All-IsSegment ns h.1)

path-Free : (ns : List Text) → All IsName ns → Free space (path ns)
path-Free [] h = tt
path-Free (n ∷ ns) h = (omega arith, Free-append space n (path ns) h.0.no_space (path-Free ns h.1))

module _ (g : GLib) (t : ObjectTree) where
  open t use {Node, Store, session}

  -- A path that leads to no object ends a request without an error.
  abbrev on_node : (Option Node → Command Store Unit) → Option Node → Command Store Unit
  on_node f none = pure tt
  on_node f (some n) = f (some n)

  -- What a request does.
  unfoldable pub run : Request → Command Store Unit
  run (create_at ns a) = walk t (some session) ns >>= on_node (λ n. create g t n a)
  run (read_at ns) = walk t (some session) ns >>= on_node (read g t)
  run (update_at ns a) = walk t (some session) ns >>= on_node (λ n. update g t n a)
  run (delete_at ns a) = walk t (some session) ns >>= on_node (λ n. delete g t n a)

  act_on-create : (a : Argument) → act_on g t (codes "create") a ≡ on_node (λ n. create g t n a)
  unfolding act_on
  act_on-create a = fun_ext (elim [ none ↦ refl | some n ↦ simp g.strcasecmp_some ])

  act_on-read : (a : Argument) → act_on g t (codes "read") a ≡ on_node (read g t)
  unfolding act_on
  act_on-read a = fun_ext (elim [ none ↦ refl | some n ↦ simp g.strcasecmp_some ])

  act_on-update : (a : Argument) → act_on g t (codes "update") a ≡ on_node (λ n. update g t n a)
  unfolding act_on
  act_on-update a = fun_ext (elim [ none ↦ refl | some n ↦ simp g.strcasecmp_some ])

  act_on-delete : (a : Argument) → act_on g t (codes "delete") a ≡ on_node (λ n. delete g t n a)
  unfolding act_on
  act_on-delete a = fun_ext (elim [ none ↦ refl | some n ↦ simp g.strcasecmp_some ])

  module _ (verb : Text) (n : Text) (ns : List Text) (h : IsName n) (hs : All IsName ns) where
    resolved : get_by_uri t g (path (n ∷ ns)) ≡ walk t (some session) (n ∷ ns)
    resolved = get_by_uri-path g t n ns (IsName-IsSegment h) (All-IsSegment ns hs)

    raw_cmd-argument :
        (r : Text)
        → raw_cmd g t (some verb) (str (path (n ∷ ns) ++ space ∷ r))
          ≡ (walk t (some session) (n ∷ ns) >>= act_on g t verb (str r))
    unfolding raw_cmd
    raw_cmd-argument r = rw (two_tokens g (path (n ∷ ns)) r (path-Free (n ∷ ns) (h, hs)), resolved)

    raw_cmd-no_argument :
        raw_cmd g t (some verb) (str (path (n ∷ ns)))
        ≡ (walk t (some session) (n ∷ ns) >>= act_on g t verb null)
    unfolding raw_cmd
    raw_cmd-no_argument =
        rw
          (g.strsplit_last (path (n ∷ ns)) space 1 (λ e. cc) (path-Free (n ∷ ns) (h, hs)), resolved)

  pub raw_cmd-create :
      (n : Text) (ns : List Text) (r : Text) {line : Text}
      → line ≡ path (n ∷ ns) ++ space ∷ r
      → IsName n
      → All IsName ns
      → raw_cmd g t (some (codes "create")) (str line) ≡ run (create_at (n ∷ ns) (str r))
  raw_cmd-create n ns r e h hs =
      rw (e, raw_cmd-argument (codes "create") n ns h hs r, act_on-create) (unfold run in refl)

  pub raw_cmd-update :
      (n : Text) (ns : List Text) (r : Text) {line : Text}
      → line ≡ path (n ∷ ns) ++ space ∷ r
      → IsName n
      → All IsName ns
      → raw_cmd g t (some (codes "update")) (str line) ≡ run (update_at (n ∷ ns) (str r))
  raw_cmd-update n ns r e h hs =
      rw (e, raw_cmd-argument (codes "update") n ns h hs r, act_on-update) (unfold run in refl)

  pub raw_cmd-delete :
      (n : Text) (ns : List Text) (r : Text) {line : Text}
      → line ≡ path (n ∷ ns) ++ space ∷ r
      → IsName n
      → All IsName ns
      → raw_cmd g t (some (codes "delete")) (str line) ≡ run (delete_at (n ∷ ns) (str r))
  raw_cmd-delete n ns r e h hs =
      rw (e, raw_cmd-argument (codes "delete") n ns h hs r, act_on-delete) (unfold run in refl)

  pub raw_cmd-read :
      (n : Text) (ns : List Text) {line : Text}
      → line ≡ path (n ∷ ns)
      → IsName n
      → All IsName ns
      → raw_cmd g t (some (codes "read")) (str line) ≡ run (read_at (n ∷ ns))
  raw_cmd-read n ns e h hs =
      rw (e, raw_cmd-no_argument (codes "read") n ns h hs, act_on-read) (unfold run in refl)

  -- A path that is read may end in a slash.
  pub raw_cmd-read_slash :
      (n : Text) (ns : List Text) {line : Text}
      → line ≡ path (n ∷ ns) ++ slash ∷ []
      → IsName n
      → All IsName ns
      → raw_cmd g t (some (codes "read")) (str line) ≡ run (read_at (n ∷ ns))
  raw_cmd-read_slash n ns e h hs =
      unfold raw_cmd run in
      rw (
        e,
        g.strsplit_last (path (n ∷ ns) ++ slash ∷ []) space 1 (λ e. cc)
            (Free-append space (path (n ∷ ns)) (slash ∷ []) (path-Free (n ∷ ns) (h, hs))
              (omega arith)),
        get_by_uri-trailing g t n ns (IsName-IsSegment h) (All-IsSegment ns hs),
        act_on-read null,
      )

  -- A table of commands, searched by a word whose letters are compared as the library documents.
  abbrev pub pick : List (Text × Callback g t) → Text → Option Text → Argument → Command Store Unit
  pick [] word action args = return bad_command
  pick ((name, callback) ∷ rest) word action args =
      let others = pick rest word action args in
      if text_eq (map to_lower name) (map to_lower word) then callback action args else others

  dispatch-eq-pick :
      (table : List (Text × Callback g t)) (word : Text) (args : Argument)
      → dispatch g t table (some word) args ≡ pick table word (some word) args
  unfolding dispatch
  dispatch-eq-pick [] word args = refl
  dispatch-eq-pick ((name, callback) ∷ rest) word args =
      rw (g.strcasecmp_some name word, dispatch-eq-pick rest word args)

  -- A line is a word, looked up in the table, and after the first space its argument.
  pub parse_cmd-word :
      (word r : Text)
      → Free space word
      → parse_cmd g t (word ++ space ∷ r) ≡ pick (cmds g t) word (some word) (str r)
  parse_cmd-word word r h =
      unfold parse_cmd second_token in
      rw (two_tokens g word r h) (dispatch-eq-pick (cmds g t) word (str r))

  -- A line without a space has no argument.
  pub parse_cmd-bare :
      (word : Text)
      → word ≢ []
      → Free space word
      → parse_cmd g t word ≡ pick (cmds g t) word (some word) null
  parse_cmd-bare word n h =
      unfold parse_cmd second_token in
      rw (g.strsplit_last word space 1 n h) (dispatch-eq-pick (cmds g t) word null)
