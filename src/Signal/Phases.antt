-- ===== src/Signal/Phases.antt =====
-- Where a wait of gstd_signal_reader.c can be: it goes on with what it has so far, or has ended for a
-- reason; and what each step makes of that.
use mathlib.Core.Path.{subst}
use gstd_1_x.Base.{
  suc, ◌<◌, ◌≤◌, ◌≡◌, ◌≢◌, ◌⊎◌, inl, inr, refl, ap, List, [], ◌∷◌, ◌++◌, Option, none, some, true,
  false, arith,
}
use gstd_1_x.Signal.{
  Waiter, Reader, outside, testing, sleeping, taken, cleared, holds_lock, signalled, make_callback,
  end_wait, disconnect,
}

module _ {Callback : Type 0} where
  -- The callback is the last that was made, and was made since `q`.
  abbrev pub IsLatest : Reader Callback → Reader Callback → Callback → Type 0
  IsLatest q t c = (others : List Callback) × (t.emitted ≡ c ∷ others ++ q.emitted)

  -- The callback was made since `q`.
  abbrev pub IsSince : Reader Callback → Reader Callback → Callback → Type 0
  IsSince q t c =
      (later : List Callback) × (others : List Callback) × (t.emitted
        ≡ later ++ (c ∷ others ++ q.emitted))

  -- Why a read that began at `q` has ended with what it hands over.
  abbrev pub Ended : Reader Callback → Reader Callback → Option Callback → Type 0
  Ended q t o =
      ((c : Callback) × ((o ≡ some c) × IsSince q t c))
      ⊎ ((q.timeouts < t.timeouts) ⊎ (q.disconnects < t.disconnects))

  abbrev pub Kept : Reader Callback → Reader Callback → Option Callback → Type 0
  Kept q t none = (t.marshals ≡ 0) × (t.emitted ≡ q.emitted)
  Kept q t (some c) = IsLatest q t c

  -- While the read goes on.
  pub record Open (q t : Reader Callback) : Type 0 where
    pub kept : Kept q t t.callback
    pub excuse : t.waiting_signal ≡ false → t.callback ≡ none → q.disconnects < t.disconnects

  abbrev pub Phase : Reader Callback → Reader Callback → Waiter Callback → Type 0
  Phase q t (outside o) = (t.connected ≡ false) × Ended q t o
  Phase q t testing = Open q t
  Phase q t (sleeping woken) = Open q t
  Phase q t (taken o) = Ended q t o
  Phase q t (cleared o) = Ended q t o

  pub record InRead (q t : Reader Callback) : Type 0 where
    pub first : t.reads ≡ suc q.reads
    pub timeouts_grow : q.timeouts ≤ t.timeouts
    pub disconnects_grow : q.disconnects ≤ t.disconnects
    pub phase : Phase q t t.waiter

  -- Or the next read has begun.
  abbrev pub InReadOrLater : Reader Callback → Reader Callback → Type 0
  InReadOrLater q t = (suc q.reads < t.reads) ⊎ InRead q t

  pub left :
      (q t : Reader Callback) (o : Option Callback)
      → t.callback ≡ o
      → Open q t
      → t.waiting_signal ≡ false
      → Ended q t o
  left q t none e h w = inr (inr (h.excuse w e))
  left q t (some c) e h w =
      let (others, k) : IsLatest q t c = subst (Kept q t) e h.kept in
      inl (c, (refl, ([], others, k)))

  pub so_far :
      (q t : Reader Callback) (o : Option Callback)
      → Kept q t o
      → (others : List Callback) × (t.emitted ≡ others ++ q.emitted)
  so_far q t none h = ([], h.1)
  so_far q t (some c) (others, h) = (c ∷ others, h)

  pub latest :
      (q t : Reader Callback) (c : Callback)
      → (others : List Callback) × (t.emitted ≡ others ++ q.emitted)
      → (others : List Callback) × (c ∷ t.emitted ≡ c ∷ others ++ q.emitted)
  latest q t c (others, h) = (others, ap (λ e. c ∷ e) h)

  pub emitted-Open : (q t : Reader Callback) (c : Callback) → Open q t → Open q (make_callback c t)
  unfolding make_callback
  emitted-Open q t c h = record {
    kept = latest q t c (so_far q t t.callback h.kept);
    excuse = λ w e. cc;
  }

  emitted-Ended :
      (q t : Reader Callback) (o : Option Callback) (c : Callback)
      → Ended q t o
      → Ended q (make_callback c t) o
  unfolding make_callback
  emitted-Ended q t o c (inl (d, (e, (later, others, k)))) =
      inl (d, (e, (c ∷ later, others, ap (λ es. c ∷ es) k)))
  emitted-Ended q t o c (inr x) = inr x

  pub emitted-Phase :
      (q t : Reader Callback) (c : Callback) (w : Waiter Callback)
      → t.connected ≡ true
      → Phase q t w
      → Phase q (make_callback c t) w
  emitted-Phase q t c (outside o) k h = cc (k, h.0)
  emitted-Phase q t c testing k h = emitted-Open q t c h
  emitted-Phase q t c (sleeping b) k h = emitted-Open q t c h
  emitted-Phase q t c (taken o) k h = emitted-Ended q t o c h
  emitted-Phase q t c (cleared o) k h = emitted-Ended q t o c h

  pub kept-end_wait :
      (q t : Reader Callback) (o : Option Callback)
      → 0 < t.marshals
      → Kept q t o
      → Kept q (end_wait t) o
  unfolding end_wait
  kept-end_wait q t none m h = absurd (omega (arith, h.0))
  kept-end_wait q t (some c) m h = h

  pub has_callback :
      (q t : Reader Callback) (o : Option Callback) → 0 < t.marshals → Kept q t o → o ≢ none
  has_callback q t none m h e = omega (arith, h.0)
  has_callback q t (some c) m h e = cc

  pub end_wait-Phase :
      (q t : Reader Callback) (w : Waiter Callback)
      → holds_lock w ≡ false
      → 0 < t.marshals
      → Phase q t w
      → Phase q (end_wait t) (signalled w)
  unfolding end_wait
  end_wait-Phase q t (outside o) u m h = h
  end_wait-Phase q t testing u m h = cc
  end_wait-Phase q t (taken o) u m h = cc
  end_wait-Phase q t (cleared o) u m h = cc
  end_wait-Phase q t (sleeping b) u m h = record {
    kept = kept-end_wait q t t.callback m h.kept;
    excuse = λ w e. absurd (has_callback q t t.callback m h.kept e);
  }

  pub kept-disconnect :
      (q t : Reader Callback) (o : Option Callback) → Kept q t o → Kept q (disconnect t) o
  unfolding disconnect
  kept-disconnect q t none h = h
  kept-disconnect q t (some c) h = h

  pub disconnect-Ended :
      (q t : Reader Callback) (o : Option Callback)
      → q.disconnects ≤ t.disconnects
      → Ended q t o
      → Ended q (disconnect t) o
  unfolding disconnect
  disconnect-Ended q t o d (inl x) = inl x
  disconnect-Ended q t o d (inr x) = inr (inr (omega arith))

  pub disconnect-Phase :
      (q t : Reader Callback) (w : Waiter Callback)
      → holds_lock w ≡ false
      → q.disconnects ≤ t.disconnects
      → Phase q t w
      → Phase q (disconnect t) (signalled w)
  unfolding disconnect
  disconnect-Phase q t (outside o) u d h = (h.0, disconnect-Ended q t o d h.1)
  disconnect-Phase q t testing u d h = cc
  disconnect-Phase q t (taken o) u d h = cc
  disconnect-Phase q t (cleared o) u d h = cc
  disconnect-Phase q t (sleeping b) u d h = record {
    kept = kept-disconnect q t t.callback h.kept;
    excuse = λ w e. omega arith;
  }

  pub kept-waiter :
      (q t : Reader Callback) (w : Waiter Callback) (o : Option Callback)
      → Kept q t o
      → Kept q (record t { waiter = w }) o
  kept-waiter q t w none h = h
  kept-waiter q t w (some c) h = h

  pub moved :
      (q t : Reader Callback) (w : Waiter Callback) → Open q t → Open q (record t { waiter = w })
  moved q t w h = record { kept = kept-waiter q t w t.callback h.kept; excuse = h.excuse }
