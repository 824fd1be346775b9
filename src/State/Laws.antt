-- ===== src/State/Laws.antt =====
-- What an update of a state does, on every branch, and how the counts of clients move.
use gstd_1_x.Base.{
  ◌+◌, ◌-◌, ◌<◌, ◌≡◌, ◌≢◌, ◌⊎◌, inl, inr, refl, Text, ℕ, zero, suc, Bool-cases, ltb, Option, none,
  some, arith,
}
use gstd_1_x.ReturnCode.{ReturnCode, eok}
use gstd_1_x.NodeList.{guint_mod, guint_decrement}
use gstd_1_x.Gst.{Gst, GstState, StateChange, failure}
use gstd_1_x.State.{State, update, change_to, changed, increment_refcount, decrement_refcount}

less_one : (n : ℕ) → 0 < n → guint_decrement n ≡ n - 1
less_one zero h = absurd (omega arith)
less_one (suc n) h = omega arith

pub decrement-refcount :
    {E : Type 0} (self : State E) → (decrement_refcount self).refcount ≡ self.refcount - 1
unfolding decrement_refcount
decrement-refcount self = elim (Bool-cases (ltb 0 self.refcount)) [
  | inl e ↦ rw e (less_one self.refcount (ground arith))
  | inr e ↦ rw e (ground arith)
]

-- Incrementing and decrementing is the identity on every count that has not reached the largest
-- guint, and a count of zero stays zero when it is decremented.
pub refcount_balance :
    {E : Type 0} (self : State E)
    → self.refcount + 1 < guint_mod
    → (decrement_refcount (increment_refcount self) ≡ self)
      × ((increment_refcount self).refcount ≡ self.refcount + 1)
      × ((decrement_refcount self).refcount ≡ self.refcount - 1)
unfolding increment_refcount decrement_refcount
refcount_balance self h = (ground arith, ground arith, decrement-refcount self)

module _ {W : Type 0} (gst : Gst W) where
  open gst use {Element}

  -- Either the code is EOK, the pipeline has been asked for the state that the text names, has not
  -- refused it, and that state is recorded; or the object is as it was.
  abbrev pub UpdateOutcome : State Element → Text → W → (ReturnCode × State Element) × W → Type 0
  UpdateOutcome self text w ((code, self'), w') =
      ((code ≡ eok)
        × ((t : Element) × (s : GstState) × (self.target ≡ some t)
            × (gst.deserialize_state text ≡ some s)
            × ((gst.set_state t s w).0 ≢ failure)
            × (w' ≡ (gst.set_state t s w).1)
            × (self' ≡ record self { state = s })))
      ⊎ ((code ≢ eok) × (self' ≡ self))

  changed-outcome :
      (self : State Element) (text : Text) (w : W) (t : Element) (s : GstState)
      (r : StateChange × W)
      → self.target ≡ some t
      → gst.deserialize_state text ≡ some s
      → gst.set_state t s w ≡ r
      → UpdateOutcome self text w (changed gst self t s r)
  changed-outcome self text w t s (failure, w') p q e = inr (λ z. cc, refl)
  changed-outcome self text w t s (_, w') p q e = inl (refl, (t, s, p, q, λ z. cc, cc, refl))

  change_to-outcome :
      (self : State Element) (text : Text) (w : W) (t : Option Element) (s : Option GstState)
      → self.target ≡ t
      → gst.deserialize_state text ≡ s
      → UpdateOutcome self text w (change_to gst self t s w)
  change_to-outcome self text w t none p q = inr (λ z. cc, refl)
  change_to-outcome self text w none (some s) p q = inr (λ z. cc, refl)
  change_to-outcome self text w (some t) (some s) p q =
      changed-outcome self text w t s (gst.set_state t s w) p q refl

  -- An update records the state that was asked for if the pipeline takes it, at once or
  -- asynchronously, and then the code is EOK; otherwise the object is unchanged. The count of
  -- clients and the pipeline are never touched.
  pub update_outcome :
      (self : State Element) (text : Text) (w : W)
      → UpdateOutcome self text w (update gst self text w)
  unfolding update
  update_outcome self text w =
      change_to-outcome self text w self.target (gst.deserialize_state text) refl refl
