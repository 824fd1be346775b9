-- ===== src/Parser/Safety.antt =====
-- Operations on what a path names do nothing that C leaves undefined, if the arguments can be looked
-- at and a creation has a token; and they keep what the resources keep.
use gstd_1_x.Base.{
  ℕ, ap, codes, true, ◌++◌, sym, ◌∙◌, Bool-cases, inl, inr, if◌then◌else◌, Text, ◌≡◌, ◌≢◌, refl,
  List, [], ◌∷◌, Option, none, some, space, slash,
}
use gstd_1_x.ReturnCode.{ReturnCode, eok, bad_command}
use gstd_1_x.Action.{done, fault, return, ◌>>=◌, ◌>>◌, check}
use gstd_1_x.Action.Safe.{
  Safe, Safe-pure, Safe-return, Safe-bind, Safe-bind_value, Safe-if, Safe-check, safe_rules,
}
use gstd_1_x.GLib.{GLib}
use gstd_1_x.Object.{ObjectTree, Out, unset, at, Context, Command, object_create, object_read}
use gstd_1_x.Object
use gstd_1_x.Object.Sound.{
  IsSound, OfStore, Safe-call, Safe-get_store, Safe-set_response, create-Safe, read-Safe,
  update-Safe, delete-Safe, to_string-Safe,
}
use gstd_1_x.Session.{child_of, walk, get_by_uri}
use gstd_1_x.Parser.Tokens.{
  first_cut, two_tokens, second_token-ne-wild, EndsWell, second_token-nonempty, append-nonempty,
  second_token-behind,
}
use gstd_1_x.Parser.Words.{Argument, null, str, wild, second_token, with_argument, with_token}
use gstd_1_x.Parser.Raw.{
  describe_new, create_named, create_tokens, create, read, update, delete, act, act_on, raw_cmd,
}

module _ (g : GLib) (t : ObjectTree) (P : t.Store → Type 0) (sound : IsSound t P) where
  open t use {Node, Store}

  child_of-Safe : (r : ReturnCode × Out Node) → r ≢ (eok, unset) → Safe (OfStore P) (child_of t r)
  unfolding child_of
  child_of-Safe (eok, unset) h = absurd (h refl)
  child_of-Safe (eok, Object.null) h = Safe-pure _
  child_of-Safe (eok, at n) h = Safe-pure _
  child_of-Safe (_, out) h = Safe-return _

  read_value :
      (p : Option Node) (name : Text) (c : Context Store)
      → P c.store
      → (r : ReturnCode × Out Node) → (object_read t p (some name) c).0 ≡ done r
      → r ≢ (eok, unset)
  unfolding object_read
  read_value none name c h r e z = cc
  read_value (some n) name c h r e z = sound.read_defined n name c.store h (cc)

  walk-Safe : (p : Option Node) (names : List Text) → Safe (OfStore P) (walk t p names)
  unfolding walk
  walk-Safe p [] = Safe-pure _
  walk-Safe p ([] ∷ ns) = walk-Safe p ns
  walk-Safe p ((c ∷ n) ∷ ns) =
      Safe-bind_value (λ r. r ≢ (eok, unset)) _ _ (read-Safe t P sound p (some (c ∷ n)))
        (read_value p (c ∷ n))
        (λ r h. Safe-bind _ _ (child_of-Safe r h) (λ child. walk-Safe child ns))

  pub get_by_uri-Safe : (uri : Text) → Safe (OfStore P) (get_by_uri t g uri)
  unfolding get_by_uri
  get_by_uri-Safe uri = walk-Safe (some t.session) (g.strsplit_set uri slash)

  -- What a resource that has just been created tells when it is read back.
  describe_new-Safe :
      (r : ReturnCode × Out Node) → r.1 ≢ unset → Safe (OfStore P) (describe_new g t r)
  unfolding describe_new
  describe_new-Safe (c, unset) h = absurd (h refl)
  describe_new-Safe (c, Object.null) h = Safe-pure _
  describe_new-Safe (c, at n) h =
      Safe-bind _ _ (to_string-Safe t P sound (some n)) (λ _. Safe-pure _)

  -- The part of a creation that follows the call of the class.
  abbrev created : Node → Option Text → ReturnCode → Command Store Unit
  created n name code = do check code; new ← object_read t (some n) name; describe_new g t new

  created-Safe :
      (n : Node) (name : Option Text) (code : ReturnCode) (c : Context Store)
      → P c.store
      → (code ≡ eok → (t.read n name c.store).0.1 ≢ unset)
      → P (created n name code c).1.store × ((created n name code c).0 ≢ fault)
  unfolding object_read
  created-Safe n name eok c h k =
      let rest = describe_new-Safe (t.read n name c.store).0 (k refl) in
      let c' : Context Store = record c { store = (t.read n name c.store).1 } in
      let h' = sound.read_keeps n name c.store h in (rest.keeps c' h', rest.defined c' h')
  created-Safe n name _ c h k = (h, λ e. cc)

  create_named-Safe :
      (n : Option Node) (name d : Option Text) → Safe (OfStore P) (create_named g t n name d)
  unfolding create_named object_create
  create_named-Safe none name d = Safe-return _
  create_named-Safe (some n) name d = record {
    keeps = λ c h. (rest c h).0;
    defined = λ c h. (rest c h).1;
  }
    where
      rest :
          (c : Context Store) (h : P c.store)
          → P (create_named g t (some n) name d c).1.store
            × ((create_named g t (some n) name d c).0 ≢ fault)
      rest c h =
          created-Safe n name (t.create n name d c.store).0
            (record c { store = (t.create n name d c.store).1 })
            (sound.create_keeps n name d c.store h) (sound.created_defined n name d c.store h)

  -- An argument of a creation that has tokens, or is NULL.
  abbrev pub HasTokens : Argument → Type 0
  HasTokens a = (a ≢ wild) × (a ≢ str [])

  create_tokens-Safe :
      (n : Option Node) (s : Text)
      → s ≢ []
      → Safe (OfStore P) (create_tokens g t n (g.strsplit s space 2))
  unfolding create_tokens
  create_tokens-Safe n s h = elim (first_cut space s) [
    | inl free ↦ rw (g.strsplit_last s space 1 h free) (create_named-Safe n (some s) none)
    | inr (p, r, free, e) ↦ rw (e, two_tokens g p r free) (create_named-Safe n (some p) (some r))
  ]

  pub create-Safe' :
      (n : Option Node) (a : Argument) → HasTokens a → Safe (OfStore P) (create g t n a)
  unfolding create
  create-Safe' n null h = create_named-Safe n none none
  create-Safe' n (str s) h = create_tokens-Safe n s (λ e. h.1 (ap str e))
  create-Safe' n wild h = absurd (h.0 refl)

  pub with_argument-Safe :
      (a : Argument) (code : ReturnCode) (k : Text → Command Store Unit)
      → a ≢ wild
      → ((s : Text) → Safe (OfStore P) (k s))
      → Safe (OfStore P) (with_argument a code k)
  with_argument-Safe null code k h safe = Safe-return code
  with_argument-Safe (str s) code k h safe = safe s
  with_argument-Safe wild code k h safe = absurd (h refl)

  pub with_token-Safe :
      (o : Option Text) (code : ReturnCode) (k : Text → Command Store Unit)
      → ((s : Text) → Safe (OfStore P) (k s))
      → Safe (OfStore P) (with_token o code k)
  with_token-Safe none code k safe = Safe-return code
  with_token-Safe (some s) code k safe = safe s

  pub ruleset parser_rules = (
    safe_rules, create-Safe, read-Safe, update-Safe, delete-Safe, to_string-Safe, Safe-set_response,
    Safe-get_store, with_argument-Safe, with_token-Safe, get_by_uri-Safe,
  )

  read-Safe' : (n : Option Node) → Safe (OfStore P) (read g t n)
  unfolding read
  read-Safe' n = search parser_rules

  update-Safe' : (n : Option Node) (a : Argument) → a ≢ wild → Safe (OfStore P) (update g t n a)
  unfolding update
  update-Safe' n a h = search parser_rules depth 9

  delete-Safe' : (n : Option Node) (a : Argument) → a ≢ wild → Safe (OfStore P) (delete g t n a)
  unfolding delete
  delete-Safe' n a h = search parser_rules

  other_verbs-Safe :
      (w : Text) (n : Option Node) (a : Argument)
      → a ≢ wild
      → Safe (OfStore P) (
          if g.strcasecmp (codes "READ") (some w)
          then read g t n
          else if g.strcasecmp (codes "UPDATE") (some w)
          then update g t n a
          else if g.strcasecmp (codes "DELETE") (some w)
          then delete g t n a
          else return bad_command)
  other_verbs-Safe w n a h = search (parser_rules, read-Safe', update-Safe', delete-Safe')

  act-Safe :
      (w : Text) (n : Option Node) (a : Argument)
      → a ≢ wild
      → (g.strcasecmp (codes "CREATE") (some w) ≡ true → a ≢ str [])
      → Safe (OfStore P) (act g t w n a)
  unfolding act
  act-Safe w n a h k = elim (Bool-cases (g.strcasecmp (codes "CREATE") (some w))) [
    | inl e ↦ rw e (create-Safe' n a (h, k e))
    | inr e ↦ rw e (other_verbs-Safe w n a h)
  ]

  act_on-Safe :
      (w : Text) (a : Argument) (n : Option Node)
      → a ≢ wild
      → (g.strcasecmp (codes "CREATE") (some w) ≡ true → a ≢ str [])
      → Safe (OfStore P) (act_on g t w a n)
  unfolding act_on
  act_on-Safe w a none h k = Safe-pure _
  act_on-Safe w a (some n) h k = act-Safe w (some n) a h k

  -- A line for a verb: if that may be "create", the part behind its first space is not empty.
  raw_tokens-Safe :
      (w : Text) (s : Text)
      → s ≢ []
      → (g.strcasecmp (codes "CREATE") (some w) ≡ true
          → second_token (g.strsplit s space 2) ≢ str [])
      → Safe (OfStore P) (raw_cmd g t (some w) (str s))
  unfolding raw_cmd
  raw_tokens-Safe w s n k =
      Safe-bind _ _ (get_by_uri-Safe _) (λ o. act_on-Safe w _ o (second_token-ne-wild g s n) k)

  -- An argument that is NULL, or a text that does not end in a space.
  abbrev pub IsProper : Argument → Type 0
  IsProper null = Unit
  IsProper (str s) = EndsWell s
  IsProper wild = ⊥

  pub raw_cmd-Safe :
      (w : Option Text) (a : Argument) → IsProper a → Safe (OfStore P) (raw_cmd g t w a)
  raw_cmd-Safe none a h = unfold raw_cmd in Safe-return _
  raw_cmd-Safe (some w) null h = unfold raw_cmd in Safe-return _
  raw_cmd-Safe (some w) (str s) h = raw_tokens-Safe w s h.0 (λ e. second_token-nonempty g s h)
  raw_cmd-Safe (some w) wild h = absurd h

  -- The lines that the commands compose for the other verbs.
  pub raw_read-Safe :
      (c : ℕ) (s : Text) → Safe (OfStore P) (raw_cmd g t (some (codes "read")) (str (c ∷ s)))
  raw_read-Safe c s =
      raw_tokens-Safe (codes "read") (c ∷ s) (λ e. cc)
        (λ e. cc (sym (g.strcasecmp_some (codes "CREATE") (codes "read")) ∙ e))

  pub raw_update-Safe :
      (c : ℕ) (s : Text) → Safe (OfStore P) (raw_cmd g t (some (codes "update")) (str (c ∷ s)))
  raw_update-Safe c s =
      raw_tokens-Safe (codes "update") (c ∷ s) (λ e. cc)
        (λ e. cc (sym (g.strcasecmp_some (codes "CREATE") (codes "update")) ∙ e))

  pub raw_delete-Safe :
      (c : ℕ) (s : Text) → Safe (OfStore P) (raw_cmd g t (some (codes "delete")) (str (c ∷ s)))
  raw_delete-Safe c s =
      raw_tokens-Safe (codes "delete") (c ∷ s) (λ e. cc)
        (λ e. cc (sym (g.strcasecmp_some (codes "CREATE") (codes "delete")) ∙ e))

  -- And those for a creation: something stands behind some space.
  pub raw_create-Safe :
      (q : Text) (d : ℕ) (r : Text) {line : Text}
      → line ≡ q ++ space ∷ d ∷ r
      → Safe (OfStore P) (raw_cmd g t (some (codes "create")) (str line))
  raw_create-Safe q d r e = rw e (
      raw_tokens-Safe (codes "create") (q ++ space ∷ d ∷ r) (append-nonempty q space (d ∷ r))
        (λ _. second_token-behind g q d r))
