-- ===== src/GLib/Reference.antt =====
-- Functions that behave as the interface of GLib documents: they show that its laws can be met, and
-- they run the tests.
use gstd_1_x.Base.{
  ℕ, zero, suc, ◌≡◌, ◌≢◌, refl, ap, ◌∙◌, List, [], ◌∷◌, ◌++◌, map, Text, codes, Free, to_lower,
  text_eq, Option, none, some, Bool, true, false, ◌==◌, arith,
}
use gstd_1_x.GLib.{GLib, rest_tokens}

prepend : ℕ → List Text → List Text
prepend c [] = []
prepend c (t ∷ ts) = (c ∷ t) ∷ ts

-- At most `n` cuts.
split_more : ℕ → ℕ → Text → List Text
unfolding prepend
split_more d zero s = s ∷ []
split_more d (suc n) [] = [] ∷ []
split_more d (suc n) (c ∷ s) = elim (c == d) [
  | true ↦ [] ∷ split_more d n s
  | false ↦ prepend c (split_more d (suc n) s)
]

-- A cut at every delimiter.
split_all : ℕ → Text → List Text
unfolding prepend
split_all d [] = [] ∷ []
split_all d (c ∷ s) = elim (c == d) [
  | true ↦ [] ∷ split_all d s
  | false ↦ prepend c (split_all d s)
]

unfoldable pub strsplit : Text → ℕ → ℕ → List Text
unfolding split_more split_all
strsplit [] d n = []
strsplit (c ∷ s) d zero = split_all d (c ∷ s)
strsplit (c ∷ s) d (suc n) = split_more d n (c ∷ s)

unfoldable pub strsplit_set : Text → ℕ → List Text
unfolding split_all
strsplit_set [] d = []
strsplit_set (c ∷ s) d = split_all d (c ∷ s)

unfoldable pub strcasecmp : Text → Option Text → Bool
strcasecmp a none = true
strcasecmp a (some b) = text_eq (map to_lower a) (map to_lower b)

module _ (d : ℕ) where
  split_more-Free : (n : ℕ) (s : Text) → Free d s → split_more d n s ≡ s ∷ []
  unfolding split_more
  split_more-Free zero s h = refl
  split_more-Free (suc n) [] h = refl
  split_more-Free (suc n) (c ∷ s) h = ground (arith, split_more-Free (suc n) s h.1)

  split_more-next :
      (n : ℕ) (p r : Text) → Free d p → split_more d (suc n) (p ++ d ∷ r) ≡ p ∷ split_more d n r
  unfolding split_more
  split_more-next n [] r h = ground arith
  split_more-next n (c ∷ p) r h = ground (arith, split_more-next n p r h.1)

  split_all-Free : (s : Text) → Free d s → split_all d s ≡ s ∷ []
  unfolding split_all
  split_all-Free [] h = refl
  split_all-Free (c ∷ s) h = ground (arith, split_all-Free s h.1)

  split_all-next : (p r : Text) → Free d p → split_all d (p ++ d ∷ r) ≡ p ∷ split_all d r
  unfolding split_all
  split_all-next [] r h = ground arith
  split_all-next (c ∷ p) r h = ground (arith, split_all-next p r h.1)

  rest-split_more :
      (n : ℕ) (r : Text) → split_more d n r ≡ rest_tokens (λ s. strsplit s d (suc n)) r
  unfolding strsplit
  rest-split_more zero [] = refl
  rest-split_more (suc n) [] = refl
  rest-split_more n (c ∷ r) = refl

  rest-split_all : (r : Text) → split_all d r ≡ rest_tokens (λ s. strsplit_set s d) r
  unfolding strsplit_set
  rest-split_all [] = refl
  rest-split_all (c ∷ r) = refl

pub strsplit_one : (s : Text) (d : ℕ) → s ≢ [] → strsplit s d 1 ≡ s ∷ []
unfolding strsplit
strsplit_one [] d h = absurd (h refl)
strsplit_one (c ∷ s) d h = refl

pub strsplit_last : (s : Text) (d n : ℕ) → s ≢ [] → Free d s → strsplit s d (suc n) ≡ s ∷ []
strsplit_last [] d n h f = absurd (h refl)
strsplit_last (c ∷ s) d n h f = unfold strsplit in split_more-Free d n (c ∷ s) f

strsplit-eq-split_more :
    (p r : Text) (d n : ℕ) → strsplit (p ++ d ∷ r) d (suc n) ≡ split_more d n (p ++ d ∷ r)
unfolding strsplit
strsplit-eq-split_more [] r d n = refl
strsplit-eq-split_more (c ∷ p) r d n = refl

pub strsplit_next :
    (p r : Text) (d n : ℕ)
    → Free d p
    → strsplit (p ++ d ∷ r) d (suc (suc n)) ≡ p ∷ rest_tokens (λ s. strsplit s d (suc n)) r
strsplit_next p r d n h =
    strsplit-eq-split_more p r d (suc n)
    ∙ split_more-next d n p r h
    ∙ ap (λ ts. p ∷ ts) (rest-split_more d n r)

pub strsplit_set_last : (s : Text) (d : ℕ) → s ≢ [] → Free d s → strsplit_set s d ≡ s ∷ []
strsplit_set_last [] d h f = absurd (h refl)
strsplit_set_last (c ∷ s) d h f = unfold strsplit_set in split_all-Free d (c ∷ s) f

strsplit_set-eq-split_all :
    (p r : Text) (d : ℕ) → strsplit_set (p ++ d ∷ r) d ≡ split_all d (p ++ d ∷ r)
unfolding strsplit_set
strsplit_set-eq-split_all [] r d = refl
strsplit_set-eq-split_all (c ∷ p) r d = refl

pub strsplit_set_next :
    (p r : Text) (d : ℕ)
    → Free d p
    → strsplit_set (p ++ d ∷ r) d ≡ p ∷ rest_tokens (λ s. strsplit_set s d) r
strsplit_set_next p r d h =
    strsplit_set-eq-split_all p r d
    ∙ split_all-next d p r h
    ∙ ap (λ ts. p ∷ ts) (rest-split_all d r)

pub strsplit_empty : (d n : ℕ) → strsplit [] d n ≡ []
unfolding strsplit
strsplit_empty d n = refl

pub strsplit_set_empty : (d : ℕ) → strsplit_set [] d ≡ []
unfolding strsplit_set
strsplit_set_empty d = refl

pub strcasecmp_some :
    (a b : Text) → strcasecmp a (some b) ≡ text_eq (map to_lower a) (map to_lower b)
unfolding strcasecmp
strcasecmp_some a b = refl

-- The C library of the supported platforms prints a NULL string as "(null)".
abbrev pub reference : GLib
reference = record {
  strsplit = strsplit;
  strsplit_set = strsplit_set;
  strsplit_all = strsplit_set;
  strcasecmp = strcasecmp;
  printf_null = codes "(null)";
  strsplit_empty = strsplit_empty;
  strsplit_one = strsplit_one;
  strsplit_last = strsplit_last;
  strsplit_next = strsplit_next;
  strsplit_set_empty = strsplit_set_empty;
  strsplit_set_last = strsplit_set_last;
  strsplit_set_next = strsplit_set_next;
  strsplit_all_empty = strsplit_set_empty;
  strsplit_all_last = strsplit_set_last;
  strsplit_all_next = strsplit_set_next;
  strcasecmp_some = strcasecmp_some;
}
