-- ===== src/Parser/Tokens.antt =====
-- How a line is cut into words.
use gstd_1_x.Base.{
  List, zero, suc, ◌≤◌, length, sym, append_assoc, Text, ◌≡◌, ◌≢◌, refl, ap, ◌∙◌, [], ◌∷◌, ◌++◌,
  space, Free, ℕ, ◌⊎◌, inl, inr, Bool-cases, ◌==◌, ==_iff, true, false, arith,
}
use mathlib.Core.Path.{subst}
use gstd_1_x.GLib.{GLib, rest_tokens}
use gstd_1_x.GLib.Words.{rest_tokens-nonempty}
use gstd_1_x.Parser.Words.{second_token, str, wild, str_text}
use gstd_1_x.Session.Uri.{rest-nonempty}

-- A text has no `d`, or a first one.
pub first_cut :
    (d : ℕ) (s : Text) → Free d s ⊎ ((p : Text) × (r : Text) × Free d p × (s ≡ p ++ d ∷ r))
first_cut d [] = inl tt
first_cut d (c ∷ s) = cut (first_cut d s) (Bool-cases (c == d))
  where
    cut :
        Free d s ⊎ ((p : Text) × (r : Text) × Free d p × (s ≡ p ++ d ∷ r))
        → ((c == d) ≡ true) ⊎ ((c == d) ≡ false)
        → Free d (c ∷ s) ⊎ ((p : Text) × (r : Text) × Free d p × (c ∷ s ≡ p ++ d ∷ r))
    cut later (inl e) = inr ([], s, tt, ap (λ x. x ∷ s) ((==_iff c d).0 e))
    cut (inl free) (inr e) = inl (ground arith, free)
    cut (inr (p, r, free, q)) (inr e) = inr (c ∷ p, r, (ground arith, free), ap (λ x. c ∷ x) q)

module _ (g : GLib) where
  -- A line of two words, the second of which may be empty and may have spaces.
  pub two_tokens : (a r : Text) → Free space a → g.strsplit (a ++ space ∷ r) space 2 ≡ a ∷ r ∷ []
  two_tokens a [] h = g.strsplit_next a [] space 0 h
  two_tokens a (c ∷ r) h =
      g.strsplit_next a (c ∷ r) space 0 h
      ∙ ap (λ ts. a ∷ ts) (g.strsplit_one (c ∷ r) space (λ e. cc))

  pub three_tokens :
      (a b r : Text)
      → Free space a
      → b ≢ []
      → Free space b
      → g.strsplit (a ++ space ∷ (b ++ space ∷ r)) space 3 ≡ a ∷ b ∷ r ∷ []
  three_tokens a b r ha nb hb =
      g.strsplit_next a (b ++ space ∷ r) space 1 ha
      ∙ ap (λ ts. a ∷ ts)
          (rest-nonempty g (λ s. g.strsplit s space 2) b (space ∷ r) nb ∙ two_tokens b r hb)

  pub four_tokens :
      (a b c r : Text)
      → Free space a
      → b ≢ []
      → Free space b
      → c ≢ []
      → Free space c
      → g.strsplit (a ++ space ∷ (b ++ space ∷ (c ++ space ∷ r))) space 4 ≡ a ∷ b ∷ c ∷ r ∷ []
  four_tokens a b c r ha nb hb nc hc =
      g.strsplit_next a (b ++ space ∷ (c ++ space ∷ r)) space 2 ha
      ∙ ap (λ ts. a ∷ ts)
          (rest-nonempty g (λ s. g.strsplit s space 3) b (space ∷ (c ++ space ∷ r)) nb
            ∙ three_tokens b c r hb nc hc)

  -- A last word without a space ends the line before the tokens run out.
  pub three_of_four :
      (a b c : Text)
      → Free space a
      → b ≢ []
      → Free space b
      → c ≢ []
      → Free space c
      → g.strsplit (a ++ space ∷ (b ++ space ∷ c)) space 4 ≡ a ∷ b ∷ c ∷ []
  three_of_four a b c ha nb hb nc hc =
      g.strsplit_next a (b ++ space ∷ c) space 2 ha
      ∙ ap (λ ts. a ∷ ts)
          (rest-nonempty g (λ s. g.strsplit s space 3) b (space ∷ c) nb
            ∙ g.strsplit_next b c space 1 hb
            ∙ ap (λ ts. b ∷ ts) (last-token c nc hc))
    where
      last-token :
          (c : Text) → c ≢ [] → Free space c → rest_tokens (λ s. g.strsplit s space 2) c ≡ c ∷ []
      last-token [] nc hc = absurd (nc refl)
      last-token (x ∷ c) nc hc = g.strsplit_last (x ∷ c) space 1 nc hc

  -- A line that is not empty has a first word, and then its second word can be looked at.
  pub second_token-ne-wild : (s : Text) → s ≢ [] → second_token (g.strsplit s space 2) ≢ wild
  unfolding second_token
  second_token-ne-wild s h = elim (first_cut space s) [
    | inl free ↦ rw (g.strsplit_last s space 1 h free) (λ e. cc)
    | inr (p, r, free, e) ↦ rw (e, two_tokens p r free) (λ e. cc)
  ]

pub append-nonempty : (r : Text) (d : ℕ) (s : Text) → r ++ d ∷ s ≢ []
append-nonempty [] d s e = cc
append-nonempty (c ∷ r) d s e = cc

-- The last token is there, and is not empty.
abbrev pub LastNonempty : List Text → Type 0
LastNonempty [] = ⊥
LastNonempty (t ∷ []) = t ≢ []
LastNonempty (t ∷ u ∷ ts) = LastNonempty (u ∷ ts)

LastNonempty-cons : (t : Text) (ts : List Text) → LastNonempty ts → LastNonempty (t ∷ ts)
LastNonempty-cons t [] h = absurd h
LastNonempty-cons t (u ∷ ts) h = h

-- A text that is there and does not end in a space.
abbrev pub EndsWell : Text → Type 0
EndsWell s = (s ≢ []) × ((w : Text) → s ≢ w ++ space ∷ [])

pub EndsWell-rest : (p r : Text) → EndsWell (p ++ space ∷ r) → EndsWell r
EndsWell-rest p r (n, h) = (
  λ e. h p (ap (λ x. p ++ space ∷ x) e),
  λ w e.
      h (p ++ space ∷ w)
        (ap (λ x. p ++ space ∷ x) e ∙ sym (append_assoc p (space ∷ w) (space ∷ []))),
)

ends_later :
    (v r w : Text) → r ≢ [] → v ++ r ≡ w ++ space ∷ [] → (w' : Text) × (r ≡ w' ++ space ∷ [])
ends_later [] r w n e = (w, e)
ends_later (c ∷ v) [] w n e = absurd (n refl)
ends_later (c ∷ v) (d ∷ r) [] n e = absurd (append-nonempty v d r (cc e))
ends_later (c ∷ v) (d ∷ r) (x ∷ w) n e = ends_later v (d ∷ r) w n (cc e)

-- Behind any word.
pub EndsWell-behind : (v r : Text) → EndsWell r → EndsWell (v ++ space ∷ r)
EndsWell-behind v [] h = absurd (h.0 refl)
EndsWell-behind v (c ∷ r) h = (
  append-nonempty v space (c ∷ r),
  λ w e.
      let (w', k) = ends_later v (space ∷ c ∷ r) w (λ z. cc) e in
      let (w'', k') = ends_later (space ∷ []) (c ∷ r) w' (λ z. cc) k in h.1 w'' k',
)

module _ (g : GLib) where
  -- Of a text that does not end in a space the last token is not empty.
  pub strsplit-LastNonempty :
      (n : ℕ) (s : Text)
      → EndsWell s
      → LastNonempty (g.strsplit s space (suc n)) × (length (g.strsplit s space (suc n)) ≤ suc n)
  strsplit-LastNonempty zero s h = rw (g.strsplit_one s space h.0) (h.0, omega arith)
  strsplit-LastNonempty (suc n) s h = elim (first_cut space s) [
    | inl free ↦ rw (g.strsplit_last s space (suc n) h.0 free) (h.0, omega arith)
    | inr (p, r, free, e) ↦
        let h' = EndsWell-rest p r (subst EndsWell e h) in
        let (last, few) = strsplit-LastNonempty n r h' in
        rw
          (
            e,
            g.strsplit_next p r space n free,
            rest_tokens-nonempty (λ s. g.strsplit s space (suc n)) r h'.0,
          )
          (LastNonempty-cons p (g.strsplit r space (suc n)) last, omega (arith, few))
  ]

  -- What stands behind its first space is not empty then.
  pub second_token-nonempty : (s : Text) → EndsWell s → second_token (g.strsplit s space 2) ≢ str []
  unfolding second_token
  second_token-nonempty s (n, h) = elim (first_cut space s) [
    | inl free ↦ rw (g.strsplit_last s space 1 n free) (λ e. cc)
    | inr (p, [], free, e) ↦ absurd (h p e)
    | inr (p, c ∷ r, free, e) ↦ rw (e, two_tokens g p (c ∷ r) free) (λ e. cc)
  ]

  -- Nor is it in a text that goes on behind some space.
  pub second_token-behind :
      (q : Text) (d : ℕ) (r : Text)
      → second_token (g.strsplit (q ++ space ∷ d ∷ r) space 2) ≢ str []
  unfolding second_token
  second_token-behind q d r = elim (first_cut space q) [
    | inl free ↦ rw (two_tokens g q (d ∷ r) free) (λ e. cc)
    | inr (p, r', free, e) ↦
        rw
          (
            e,
            append_assoc p (space ∷ r') (space ∷ d ∷ r),
            two_tokens g p (r' ++ space ∷ d ∷ r) free,
          )
          (λ z. append-nonempty r' space (d ∷ r) (str_text z))
  ]
