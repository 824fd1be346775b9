-- ===== src/Session/Uri.antt =====
-- What a path means: the names between its slashes, read one below the other.
use gstd_1_x.Base.{
  All, Text, ◌≡◌, ◌≢◌, refl, ap, ◌∙◌, List, [], ◌∷◌, ◌++◌, append-nil, append_assoc, Option, none,
  some, slash, Free,
}
use gstd_1_x.GLib.{GLib, rest_tokens}
use gstd_1_x.ReturnCode.{ReturnCode, eok, bad_command}
use gstd_1_x.Action.{Exit, done, stop, return}
use gstd_1_x.Object.{ObjectTree, Out, at, object_read}
use gstd_1_x.Session.{walk, get_by_uri, child_of}

-- What a path can have between two slashes.
pub record IsSegment (s : Text) : Type 0 where
  pub nonempty : s ≢ []
  pub no_slash : Free slash s

-- "/a/b/c"
abbrev pub path : List Text → Text
path [] = []
path (n ∷ ns) = slash ∷ n ++ path ns

module _ (g : GLib) where
  pub rest-nonempty :
      (split : Text → List Text) (s t : Text) → s ≢ [] → rest_tokens split (s ++ t) ≡ split (s ++ t)
  rest-nonempty split [] t h = absurd (h refl)
  rest-nonempty split (c ∷ s) t h = refl

  names_of_path :
      (n : Text) (ns : List Text)
      → IsSegment n
      → All IsSegment ns
      → g.strsplit_set (n ++ path ns) slash ≡ n ∷ ns
  names_of_path n [] h hs = rw append-nil (g.strsplit_set_last n slash h.nonempty h.no_slash)
  names_of_path n (m ∷ ms) h hs =
      g.strsplit_set_next n (m ++ path ms) slash h.no_slash
      ∙ ap (λ ts. n ∷ ts)
          (rest-nonempty (λ s. g.strsplit_set s slash) m (path ms) hs.0.nonempty
            ∙ names_of_path m ms hs.0 hs.1)

  names_of_trailing :
      (n : Text) (ns : List Text)
      → IsSegment n
      → All IsSegment ns
      → g.strsplit_set (n ++ (path ns ++ slash ∷ [])) slash ≡ (n ∷ ns) ++ [] ∷ []
  names_of_trailing n [] h hs = g.strsplit_set_next n [] slash h.no_slash
  names_of_trailing n (m ∷ ms) h hs = rw (append_assoc m (path ms) (slash ∷ [])) (
      g.strsplit_set_next n (m ++ (path ms ++ slash ∷ [])) slash h.no_slash
      ∙ ap (λ ts. n ∷ ts)
          (rest-nonempty (λ s. g.strsplit_set s slash) m (path ms ++ slash ∷ []) hs.0.nonempty
            ∙ names_of_trailing m ms hs.0 hs.1))

  module _ (t : ObjectTree) where
    open t use {Node, Store, session}

    walk-rest :
        (u : Text)
        → walk t (some session) (rest_tokens (λ s. g.strsplit_set s slash) u)
          ≡ walk t (some session) (g.strsplit_set u slash)
    unfolding walk
    walk-rest [] = rw (g.strsplit_set_empty slash)
    walk-rest (c ∷ u) = refl

    -- A slash in front of a path changes nothing: "/a/b", "a/b" and "//a/b" name the same resource.
    pub get_by_uri-slash : (u : Text) → get_by_uri t g (slash ∷ u) ≡ get_by_uri t g u
    unfolding get_by_uri
    get_by_uri-slash u = rw (g.strsplit_set_next [] u slash tt) (walk-rest u)

    -- A path of names that are not empty and have no slash is resolved by reading the names in
    -- order, from the session on.
    pub get_by_uri-path :
        (n : Text) (ns : List Text)
        → IsSegment n
        → All IsSegment ns
        → get_by_uri t g (path (n ∷ ns)) ≡ walk t (some session) (n ∷ ns)
    get_by_uri-path n ns h hs =
        get_by_uri-slash (n ++ path ns) ∙ unfold get_by_uri in rw (names_of_path n ns h hs)

    -- An empty name at the end of a path, which a slash leaves there, is skipped.
    walk-trailing : (ns : List Text) (p : Option Node) → walk t p (ns ++ [] ∷ []) ≡ walk t p ns
    unfolding walk
    walk-trailing [] p = refl
    walk-trailing ([] ∷ ns) p = walk-trailing ns p
    walk-trailing ((c ∷ n) ∷ ns) p = simp (walk-trailing ns)

    -- So is a slash at the end: "/a/b/" names what "/a/b" names.
    pub get_by_uri-trailing :
        (n : Text) (ns : List Text)
        → IsSegment n
        → All IsSegment ns
        → get_by_uri t g (path (n ∷ ns) ++ slash ∷ []) ≡ walk t (some session) (n ∷ ns)
    get_by_uri-trailing n ns h hs =
        get_by_uri-slash ((n ++ path ns) ++ slash ∷ [])
        ∙ unfold get_by_uri in
          rw (append_assoc n (path ns) (slash ∷ []), names_of_trailing n ns h hs)
            (walk-trailing (n ∷ ns) (some session))

    -- What reading names one below the other leads to, from a resource and a store on: each is read
    -- from the resource that the name before it led to. The first read that is refused ends it, and
    -- leads to no resource.
    pub data Leads : Node → List Text → Store → Option Node → Store → Type 0 where
      here : {n : Node} {s : Store} → Leads n [] s (some n) s
      down :
          {n m : Node} {name : Text} {names : List Text} {s s' s'' : Store} {found : Option Node}
          → t.read n (some name) s ≡ ((eok, at m), s')
          → Leads m names s' found s''
          → Leads n (name ∷ names) s found s''
      blocked :
          {n : Node} {name : Text} {names : List Text} {s s' : Store} {code : ReturnCode}
          {out : Out Node}
          → t.read n (some name) s ≡ ((code, out), s')
          → code ≢ eok
          → Leads n (name ∷ names) s none s'

    -- Any refusal is reported as a bad command.
    abbrev pub resolution : Option Node → Exit (Option Node)
    resolution none = stop bad_command
    resolution (some n) = done (some n)

    child_of-refused :
        (code : ReturnCode) (out : Out Node)
        → code ≢ eok
        → child_of t (code, out) ≡ return bad_command
    unfolding child_of
    child_of-refused eok out h = absurd (h refl)
    child_of-refused _ out h = refl

    walk-Leads :
        {n : Node} {names : List Text} {found : Option Node} {s s' : Store} (r : Option Text)
        → All IsSegment names
        → Leads n names s found s'
        → walk t (some n) names (record { store = s; response = r })
          ≡ (resolution found, record { store = s'; response = r })
    unfolding walk object_read child_of
    walk-Leads r h here = refl
    walk-Leads {names = [] ∷ names} r h (down e l) = absurd (h.0.nonempty refl)
    walk-Leads {names = (c ∷ name) ∷ names} r h (down e l) = rw e (walk-Leads r h.1 l)
    walk-Leads {names = [] ∷ names} r h (blocked e k) = absurd (h.0.nonempty refl)
    walk-Leads {names = (c ∷ name) ∷ names} r h (blocked {code = code} {out = out} e k) =
        rw e (rw (child_of-refused code out k) refl)

    -- A path of names that are not empty and have no slash is resolved by reading its names one below
    -- the other, from the session on: it gives the resource that they lead to, or a bad command once a
    -- read is refused, and the store is what those reads have left.
    pub get_by_uri-Leads :
        (n : Text) (ns : List Text) (found : Option Node) (s s' : Store) (r : Option Text)
        → IsSegment n
        → All IsSegment ns
        → Leads session (n ∷ ns) s found s'
        → get_by_uri t g (path (n ∷ ns)) (record { store = s; response = r })
          ≡ (resolution found, record { store = s'; response = r })
    get_by_uri-Leads n ns found s s' r h hs l =
        rw (get_by_uri-path n ns h hs) (walk-Leads r (h, hs) l)
