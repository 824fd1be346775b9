-- ===== src/NodeList/Laws.antt =====
-- What a list of resources is: a finite map from names to resources, with its size.
use mathlib.Core.Option
use gstd_1_x.Base.{
  true, ap, suc, ◌%◌, ◌≡◌, refl, Text, List, [], ◌∷◌, ◌++◌, none, some, length, text_eq,
  text_eq_iff, if◌then◌else◌, arith, Bool-cases, inl, inr,
}
use gstd_1_x.NodeList.{NodeList, guint_mod, find_node, delete_link, change_node}

module _ {A : Type 0} (name : A → Text) where
  -- No two nodes have one name.
  abbrev pub Distinct : List A → Type 0
  Distinct [] = Unit
  Distinct (x ∷ xs) = (find_node name xs (name x) ≡ none) × Distinct xs

  pub record IsValid (self : NodeList A) : Type 0 where
    pub counted : self.count ≡ length self.nodes % guint_mod
    pub distinct : Distinct self.nodes

  pub find-name : (xs : List A) (n : Text) (x : A) → find_node name xs n ≡ some x → name x ≡ n
  unfolding find_node
  find-name [] n x h = cc
  find-name (y ∷ xs) n x h = ground (arith, text_eq_iff (name y) n, find-name xs n x)

  pub find_append :
      (xs : List A) (x : A) (n : Text)
      → find_node name xs (name x) ≡ none
      → find_node name (xs ++ x ∷ []) n
        ≡ (if text_eq (name x) n then some x else find_node name xs n)
  unfolding find_node
  find_append [] x n h = ground arith
  find_append (y ∷ xs) x n h = ground (
    arith,
    find_append xs x n,
    text_eq_iff (name y) n,
    text_eq_iff (name x) n,
    text_eq_iff (name y) (name x),
  )

  pub find_delete :
      (xs : List A) (m n : Text)
      → Distinct xs
      → find_node name (delete_link name xs m) n
        ≡ (if text_eq m n then none else find_node name xs n)
  unfolding find_node delete_link
  find_delete [] m n h = ground arith
  find_delete (x ∷ xs) m n h = ground (
    arith,
    find_delete xs m n h.1,
    text_eq_iff (name x) m,
    text_eq_iff (name x) n,
    text_eq_iff m n,
    h.0,
  )

  pub Distinct-append :
      (xs : List A) (x : A)
      → Distinct xs
      → find_node name xs (name x) ≡ none
      → Distinct (xs ++ x ∷ [])
  unfolding find_node
  Distinct-append [] x d h = (refl, tt)
  Distinct-append (y ∷ xs) x d h = elim (Bool-cases (text_eq (name y) (name x))) [
    | inl e ↦ absurd (cc)
    | inr e ↦ (
      rw (find_append xs x (name y) (ground arith))
          (ground (arith, text_eq_iff (name x) (name y), text_eq_iff (name y) (name x), d.0)),
      Distinct-append xs x d.1 (ground arith),
    )
  ]

  pub none_delete :
      (xs : List A) (m n : Text)
      → find_node name xs n ≡ none
      → find_node name (delete_link name xs m) n ≡ none
  unfolding find_node delete_link
  none_delete [] m n h = refl
  none_delete (x ∷ xs) m n h = ground (arith, none_delete xs m n)

  pub Distinct-delete : (xs : List A) (m : Text) → Distinct xs → Distinct (delete_link name xs m)
  unfolding delete_link
  Distinct-delete [] m d = tt
  Distinct-delete (x ∷ xs) m d = elim (Bool-cases (text_eq (name x) m)) [
    | inl e ↦ rw e d.1
    | inr e ↦ rw e (none_delete xs m (name x) d.0, Distinct-delete xs m d.1)
  ]

  pub length-delete :
      (xs : List A) (m : Text) (x : A)
      → find_node name xs m ≡ some x
      → suc (length (delete_link name xs m)) ≡ length xs
  unfolding find_node delete_link
  length-delete [] m x h = cc
  length-delete (y ∷ xs) m x h = ground (arith, length-delete xs m x)

  pub find_change :
      (f : A → A) (xs : List A) (m n : Text)
      → ((x : A) → name (f x) ≡ name x)
      → find_node name (change_node name f xs m) n
        ≡ (if text_eq m n then Option.map f (find_node name xs n) else find_node name xs n)
  unfolding find_node change_node
  find_change f [] m n h = ground arith
  find_change f (x ∷ xs) m n h = ground (
    arith,
    find_change f xs m n h,
    h x,
    text_eq_iff (name x) m,
    text_eq_iff (name x) n,
    text_eq_iff m n,
  )

  pub length-change :
      (f : A → A) (xs : List A) (m : Text) → length (change_node name f xs m) ≡ length xs
  unfolding change_node
  length-change f [] m = refl
  length-change f (x ∷ xs) m = ground (arith, length-change f xs m)

  pub Distinct-change :
      (f : A → A) (xs : List A) (m : Text)
      → ((x : A) → name (f x) ≡ name x)
      → Distinct xs
      → Distinct (change_node name f xs m)
  unfolding change_node
  Distinct-change f [] m h d = tt
  Distinct-change f (x ∷ xs) m h d = elim (Bool-cases (text_eq (name x) m)) [
    | inl e ↦ rw e (rw (h x) d.0, d.1)
    | inr e ↦ rw e (
      rw (find_change f xs m (name x) h)
          (ground (arith, text_eq_iff m (name x), text_eq_iff (name x) m, d.0)),
      Distinct-change f xs m h d.1,
    )
  ]

  -- What one change of an entry does and another undoes leaves the list as it was.
  pub change_back :
      (f h : A → A) (xs : List A) (n : Text) (x : A)
      → ((y : A) → name (f y) ≡ name y)
      → find_node name xs n ≡ some x
      → h (f x) ≡ x
      → change_node name h (change_node name f xs n) n ≡ xs
  unfolding find_node change_node
  change_back f h [] n x k e b = refl
  change_back f h (y ∷ xs) n x k e b = elim (Bool-cases (text_eq (name y) n)) [
    | inl q ↦
        let same : y ≡ x = ground arith in
        let named : text_eq (name (f y)) n ≡ true = rw (k y) q in
        rw q (rw named (ap (λ z. z ∷ xs) (rw same b)))
    | inr q ↦ rw q (rw q (ap (λ zs. y ∷ zs) (change_back f h xs n x k (ground arith) b)))
  ]
