-- ===== src/NodeList/Appending.antt =====
-- Lists that are filled by appending one resource after the other, whatever becomes of each.
use gstd_1_x.Base.{
  ◌≡◌, refl, Text, List, [], ◌∷◌, ◌++◌, Option, none, some, Option-cases, text_eq, text_eq_iff,
  arith, inl, inr, if◌then◌else◌,
}
use gstd_1_x.NodeList.{
  NodeList, empty, find_node, find_child, append_child, or_kept, append_or_keep,
}
use gstd_1_x.NodeList.Laws.{IsValid, find-name}
use gstd_1_x.NodeList.Operations.{append_free, append_child-Adds}

-- The first that there is.
abbrev pub or_else : {A : Type 0} → Option A → Option A → Option A
or_else none o = o
or_else (some x) o = some x

-- A list is a map, in which a name has the first resource of it among others.
abbrev pub IsMapOf : {A : Type 0} → (A → Text) → NodeList A → List A → Type 0
IsMapOf name l xs = (n : Text) → IsValid name l × (find_child name l n ≡ find_node name xs n)

module _ {A : Type 0} (name : A → Text) where
  abbrev pub append_all : NodeList A → List A → NodeList A
  append_all l [] = l
  append_all l (x ∷ xs) = append_all (append_or_keep name l x) xs

  pub append_all-append :
      (l : NodeList A) (xs ys : List A) → append_all l (xs ++ ys) ≡ append_all (append_all l xs) ys
  append_all-append l [] ys = refl
  append_all-append l (x ∷ xs) ys = append_all-append (append_or_keep name l x) xs ys

  or_kept-IsValid :
      (l : NodeList A) (x : A) (o : Option (NodeList A))
      → IsValid name l
      → append_child name l x ≡ o
      → IsValid name (or_kept name l o)
  or_kept-IsValid l x none v e = v
  or_kept-IsValid l x (some l') v e = (append_child-Adds name l l' x v e).0

  find-or_kept :
      (l : NodeList A) (x : A) (n : Text) (o : Option (NodeList A))
      → IsValid name l
      → append_child name l x ≡ o
      → find_child name (or_kept name l o) n
        ≡ or_else (find_child name l n) (if text_eq (name x) n then some x else none)
  unfolding find_child
  find-or_kept l x n none v e = elim (Option-cases (find_node name l.nodes (name x))) [
    | inl q ↦ cc (append_free name l x q)
    | inr (y, q) ↦ ground (arith, text_eq_iff (name x) n, find-name name l.nodes (name x) y q)
  ]
  find-or_kept l x n (some l') v e =
      let adds = (append_child-Adds name l l' x v e).1 in
      rw (adds.found n) (ground (arith, text_eq_iff (name x) n, adds.fresh))

  append_all-IsValid :
      (xs : List A) (l : NodeList A) → IsValid name l → IsValid name (append_all l xs)
  append_all-IsValid [] l v = v
  append_all-IsValid (x ∷ xs) l v =
      append_all-IsValid xs (append_or_keep name l x) (or_kept-IsValid l x _ v refl)

  find-append_all :
      (xs : List A) (l : NodeList A) (n : Text)
      → IsValid name l
      → find_child name (append_all l xs) n ≡ or_else (find_child name l n) (find_node name xs n)
  unfolding find_node
  find-append_all [] l n v = ground arith
  find-append_all (x ∷ xs) l n v =
      let l' = append_or_keep name l x in
      let later = find-append_all xs l' n (or_kept-IsValid l x _ v refl) in
      rw later (rw (find-or_kept l x n _ v refl) (ground arith))

  -- What is appended to an empty list makes a map, in which a name has the first resource of it.
  pub append_all-empty : (xs : List A) → IsMapOf name (append_all empty xs) xs
  unfolding find_child find_node
  append_all-empty xs n =
      let v : IsValid name empty = record { counted = refl; distinct = tt } in
      (append_all-IsValid xs empty v, find-append_all xs empty n v)
