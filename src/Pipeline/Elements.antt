-- ===== src/Pipeline/Elements.antt =====
-- The elements that a pipeline finds when it is built: none that GStreamer hands out is lost, and
-- none is listed twice.
use gstd_1_x.Base.{
  ℕ, zero, suc, ◌+◌, ◌≤◌, ◌≡◌, refl, Text, Bool, false, List, [], ◌∷◌, Option, none, some,
  Option-cases, text_eq, text_eq_iff, arith, if◌then◌else◌, ◌||◌, inl, inr,
}
use gstd_1_x.NodeList
use gstd_1_x.NodeList.{NodeList, find_node, find_child, append_child}
use gstd_1_x.NodeList.Laws.{IsValid, find-name}
use gstd_1_x.NodeList.Operations.{append_child-Adds, append_free}
use gstd_1_x.Gst.{IteratorResult, ok, resync, finished}
use gstd_1_x.Pipeline.{own_name, max_iterator_resync, fill, kept}
use gstd_1_x.Pipeline.Laws.{fill-IsValid, kept-IsValid}

-- The iterator asks for a resynchronisation some times, and goes on.
abbrev pub resyncs : ℕ → List IteratorResult → List IteratorResult
resyncs zero rest = rest
resyncs (suc k) rest = resync ∷ resyncs k rest

-- What it returns when it asks so before each name that it hands out.
abbrev pub schedule : List (ℕ × Text) → List IteratorResult
schedule [] = finished ∷ []
schedule ((k, n) ∷ rest) = resyncs k (ok n ∷ schedule rest)

-- The name is one of those that are handed out.
abbrev pub among : Text → List (ℕ × Text) → Bool
among n [] = false
among n ((k, m) ∷ rest) = text_eq m n || among n rest

abbrev pub IsPatient : List (ℕ × Text) → Type 0
IsPatient [] = Unit
IsPatient ((k, n) ∷ rest) = (k ≤ max_iterator_resync) × IsPatient rest

fill-resyncs :
    (count k : ℕ) (l : NodeList Text) (n : Text) (rest : List IteratorResult)
    → count + k ≤ max_iterator_resync
    → fill count l (resyncs k (ok n ∷ rest)) ≡ fill 0 (kept l (append_child own_name l n)) rest
unfolding fill
fill-resyncs count zero l n rest h = refl
fill-resyncs count (suc k) l n rest h =
    let more = fill-resyncs (count + 1) k l n rest (omega arith) in ground arith

find-kept :
    (l : NodeList Text) (n m : Text) (o : Option (NodeList Text))
    → IsValid own_name l
    → append_child own_name l n ≡ o
    → find_child own_name (kept l o) m ≡ (if text_eq n m then some n else find_child own_name l m)
unfolding find_child append_child
find-kept l n m none v e = elim (Option-cases (find_node own_name l.nodes n)) [
  | inl q ↦ cc (append_free own_name l n q)
  | inr (y, q) ↦ ground (arith, text_eq_iff n m, find-name own_name l.nodes n y q)
]
find-kept l n m (some l') v e = (append_child-Adds own_name l l' n v e).1.found m

fill-finds :
    (l : NodeList Text) (blocks : List (ℕ × Text)) (m : Text)
    → IsValid own_name l
    → IsPatient blocks
    → find_child own_name (fill 0 l (schedule blocks)) m
      ≡ (if among m blocks then some m else find_child own_name l m)
unfolding fill
fill-finds l [] m v h = refl
fill-finds l ((k, n) ∷ blocks) m v h =
    let o = append_child own_name l n in
    rw (fill-resyncs 0 k l n (schedule blocks) (omega arith)) (
      rw (fill-finds (kept l o) blocks m (kept-IsValid l n o v refl) h.1)
        (rw (find-kept l n m o v refl) (ground (arith, text_eq_iff n m))))

-- If the iterator asks for no more resynchronisations before each element than the program bears
-- with, then an element is found in the list exactly if the iterator hands it out, and the list is
-- one in which a name stands once.
pub fill_elements :
    (blocks : List (ℕ × Text)) (m : Text)
    → IsPatient blocks
    → let l = fill 0 NodeList.empty (schedule blocks) in
      IsValid own_name l × (find_child own_name l m ≡ (if among m blocks then some m else none))
unfolding find_child
fill_elements blocks m h =
    let v : IsValid own_name NodeList.empty = record { counted = refl; distinct = tt } in
    (fill-IsValid 0 NodeList.empty (schedule blocks) v, fill-finds NodeList.empty blocks m v h)
