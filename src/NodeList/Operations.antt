-- ===== src/NodeList/Operations.antt =====
-- What the operations of a list of resources do: each keeps the list a map with its size, and
-- changes at most the entry of one name.
use mathlib.Core.Path.{subst}
use gstd_1_x.Base.{
  ℕ, suc, ◌+◌, ◌-◌, ◌%◌, ◌≡◌, ◌≢◌, refl, Text, [], ◌∷◌, ◌++◌, Option, none, some, length, text_eq,
  if◌then◌else◌, arith, Option-cases, inl, inr, ◌⊎◌,
}
use gstd_1_x.ReturnCode.{ReturnCode, eok}
use gstd_1_x.NodeList.{
  NodeList, guint_mod, find_node, delete_link, find_child, append_child, create, delete, created,
  appended, deleted, delete_found,
}
use gstd_1_x.NodeList.Laws.{
  IsValid, Distinct-append, Distinct-delete, length-delete, find_append, find_delete,
}

count_delete : (n m : ℕ) → suc m ≡ n → (n % guint_mod + guint_mod - 1) % guint_mod ≡ m % guint_mod
count_delete n m e = omega arith

module _ {A : Type 0} (name : A → Text) where
  -- The resource `x` has been added, and no other name is affected.
  pub record Adds (self : NodeList A) (x : A) (self' : NodeList A) : Type 0 where
    pub fresh : find_child name self (name x) ≡ none
    pub found :
        (n : Text)
        → find_child name self' n ≡ (if text_eq (name x) n then some x else find_child name self n)

  -- The resource of the name `m` has gone, and no other name is affected.
  pub record Removes (self : NodeList A) (m : Text) (self' : NodeList A) : Type 0 where
    pub present : find_child name self m ≢ none
    pub found :
        (n : Text)
        → find_child name self' n ≡ (if text_eq m n then none else find_child name self n)

  abbrev pub with_last : NodeList A → A → NodeList A
  with_last self x = record {
    nodes = self.nodes ++ x ∷ [];
    count = length (self.nodes ++ x ∷ []) % guint_mod;
  }

  pub append_free :
      (self : NodeList A) (x : A)
      → find_node name self.nodes (name x) ≡ none
      → append_child name self x ≡ some (with_last self x)
  unfolding append_child
  append_free self x h = rw h

  pub append_taken :
      (self : NodeList A) (x y : A)
      → find_node name self.nodes (name x) ≡ some y
      → append_child name self x ≡ none
  unfolding append_child
  append_taken self x y h = rw h

  -- A new resource goes to the end of a list in which its name is free.
  pub append_child-Adds :
      (self self' : NodeList A) (x : A)
      → IsValid name self
      → append_child name self x ≡ some self'
      → IsValid name self' × Adds self x self'
  unfolding find_child
  append_child-Adds self self' x v e = elim (Option-cases (find_node name self.nodes (name x))) [
    | inr (y, q) ↦ cc (append_taken self x y q)
    | inl q ↦
        let same : with_last self x ≡ self' = cc (append_free self x q, e) in
        subst (λ l. IsValid name l × Adds self x l) same
          (
            record { counted = refl; distinct = Distinct-append name self.nodes x v.distinct q },
            record { fresh = q; found = λ n. find_append name self.nodes x n q },
          )
  ]

  module _ {W : Type 0} (dispose : A → W → W) where
    -- Either a resource of the list is new and the code is EOK, or the list is as it was.
    abbrev pub CreateOutcome : NodeList A → Option A → ReturnCode × NodeList A → Type 0
    CreateOutcome self out (code, self') =
        ((code ≡ eok) × ((x : A) × (out ≡ some x) × Adds self x self'))
        ⊎ ((code ≢ eok) × (self' ≡ self))

    appended-outcome :
        (self : NodeList A) (x : A) (w : W) (o : Option (NodeList A))
        → IsValid name self
        → append_child name self x ≡ o
        → let r = appended name dispose self x w o in
          IsValid name r.0.1 × CreateOutcome self (some x) r.0
    appended-outcome self x w none v e = (v, inr (λ z. cc, refl))
    appended-outcome self x w (some self') v e =
        let (valid, adds) = append_child-Adds self self' x v e in
        (valid, inl (refl, (x, refl, adds)))

    created-outcome :
        (self : NodeList A) (r : (ReturnCode × Option A) × W)
        → IsValid name self
        → let c = created name dispose self r in IsValid name c.0.1 × CreateOutcome self r.0.1 c.0
    created-outcome self ((eok, none), w) v = (v, inr (λ z. cc, refl))
    created-outcome self ((eok, some x), w) v =
        appended-outcome self x w (append_child name self x) v refl
    created-outcome self ((_, out), w) v = (v, inr (λ z. cc, refl))

  -- Creating in a list keeps it valid, whatever the creator does. If the code is EOK, what the
  -- creator made is in the list under its name, which was free, and every other name is as it was;
  -- on any other code the list is as it was.
  pub create_outcome :
      {W : Type 0} (creator : Option Text → Option Text → W → (ReturnCode × Option A) × W)
      (dispose : A → W → W) (self : NodeList A) (n d : Option Text) (w : W)
      → IsValid name self
      → let r = create name creator dispose self n d w in
        IsValid name r.0.1 × CreateOutcome dispose self (creator n d w).0.1 r.0
  unfolding create
  create_outcome creator dispose self n d w v = created-outcome dispose self (creator n d w) v

  -- Either the name has gone and the code is EOK, or the list is as it was.
  abbrev pub DeleteOutcome : NodeList A → Text → ReturnCode × NodeList A → Type 0
  DeleteOutcome self m (code, self') =
      ((code ≡ eok) × Removes self m self') ⊎ ((code ≢ eok) × (self' ≡ self))

  module _ {W : Type 0} where
    deleted-outcome :
        (self : NodeList A) (m : Text) (x : A) (r : ReturnCode × W)
        → IsValid name self
        → find_node name self.nodes m ≡ some x
        → let d = deleted name self m r in IsValid name d.0.1 × DeleteOutcome self m d.0
    unfolding find_child
    deleted-outcome self m x (eok, w) v q = (
      record {
        counted = rw v.counted (
            count_delete (length self.nodes) (length (delete_link name self.nodes m))
              (length-delete name self.nodes m x q));
        distinct = Distinct-delete name self.nodes m v.distinct;
      },
      inl (
        refl,
        record { present = λ z. cc; found = λ n. find_delete name self.nodes m n v.distinct },
      ),
    )
    deleted-outcome self m x (_, w) v q = (v, inr (λ z. cc, refl))

    delete_found-outcome :
        (deleter : A → W → ReturnCode × W) (self : NodeList A) (m : Text) (w : W) (o : Option A)
        → IsValid name self
        → find_node name self.nodes m ≡ o
        → let d = delete_found name deleter self m w o in
          IsValid name d.0.1 × DeleteOutcome self m d.0
    delete_found-outcome deleter self m w none v q = (v, inr (λ z. cc, refl))
    delete_found-outcome deleter self m w (some x) v q = deleted-outcome self m x (deleter x w) v q

  -- Deleting from a list keeps it valid, whatever the deleter does. If the code is EOK, the name was
  -- there, it has gone, and every other name is as it was; on any other code the list is as it was.
  pub delete_outcome :
      {W : Type 0} (deleter : A → W → ReturnCode × W) (self : NodeList A) (m : Text) (w : W)
      → IsValid name self
      → let d = delete name deleter self m w in IsValid name d.0.1 × DeleteOutcome self m d.0
  unfolding delete
  delete_outcome deleter self m w v =
      delete_found-outcome deleter self m w (find_node name self.nodes m) v refl
