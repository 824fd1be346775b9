-- ===== src/Signal/Runs.antt =====
-- Runs of the reader of gstd_signal_reader.c that hand over the wrong callback, or none.
use gstd_1_x.Base.{ℕ, suc, ◌-◌, ◌<◌, ◌≡◌, refl, ◌∷◌, Option, none, some, arith}
use gstd_1_x.Signal.{
  Reader, outside, enter, take, clear, leave, time_out, make_callback, end_wait, disconnect, enters,
  waits, takes, clears, leaves, wakes, times_out, emits, ends_wait, disconnects, ◌⟶*◌, stay, go,
}

one_is_left : (n : ℕ) → 0 < suc n
one_is_left n = omega arith

other_is_left : (n : ℕ) → 0 < suc (suc n) - 1
other_is_left n = omega arith

module _ {Callback : Type 0} where
  -- From a reader that nobody waits on, one read times out after a callback has been made, and the
  -- next read hands that over when it is ended by "disconnect": no signal came after it began.
  pub stale_callback :
      (r : Reader Callback) (o : Option Callback) (c : Callback)
      → r.waiter ≡ outside o
      → (s : Reader Callback) × (t : Reader Callback) × ((r ⟶* s)
          × (s ⟶* t)
          × (s.waiter ≡ outside none)
          × (t.waiter ≡ outside (some c))
          × (t.emitted ≡ s.emitted)
          × (t.timeouts ≡ s.timeouts))
  unfolding enter take clear leave time_out make_callback disconnect
  stale_callback r o c h = (
    _,
    _,
    (
      go (enters h) (go (waits refl refl) (go (emits c refl) (go (times_out refl) stay))),
      go (enters refl) (
          go (waits refl refl) (
            go (disconnects refl)
              (go (wakes refl) (go (takes refl refl) (go (clears refl) (go (leaves refl) stay)))))),
      refl,
      refl,
      refl,
      refl,
    ),
  )

  -- Two signals arrive in one read, and the second is still taking the lock when the read ends. The
  -- next read then ends without a callback, though nobody has read "disconnect" and no time has run
  -- out.
  pub early_end :
      (r : Reader Callback) (o : Option Callback) (c d : Callback)
      → r.waiter ≡ outside o
      → (s : Reader Callback) × (t : Reader Callback) × ((r ⟶* s)
          × (s ⟶* t)
          × (s.waiter ≡ outside (some d))
          × (t.waiter ≡ outside none)
          × (t.reads ≡ suc s.reads)
          × (t.disconnects ≡ r.disconnects)
          × (t.timeouts ≡ r.timeouts))
  unfolding enter take clear leave make_callback end_wait
  early_end r o c d h = (
    _,
    _,
    (
      go (enters h) (
          go (waits refl refl) (
            go (emits c refl) (
              go (emits d refl) (
                go (ends_wait refl (one_is_left _)) (
                  go (wakes refl)
                    (go (takes refl refl) (go (clears refl) (go (leaves refl) stay)))))))),
      go (enters refl) (
          go (waits refl refl) (
            go (ends_wait refl (other_is_left _))
              (go (wakes refl) (go (takes refl refl) (go (clears refl) (go (leaves refl) stay)))))),
      refl,
      refl,
      refl,
      refl,
      refl,
    ),
  )

  -- A callback that is made after the read has taken another and before it clears it is lost: the read
  -- hands over the other one, and none is left.
  pub lost_callback :
      (r : Reader Callback) (o : Option Callback) (c d : Callback)
      → r.waiter ≡ outside o
      → (s : Reader Callback) × ((r ⟶* s)
          × (s.emitted ≡ d ∷ (c ∷ r.emitted))
          × (s.waiter ≡ outside (some c))
          × (s.callback ≡ none))
  unfolding enter take clear leave make_callback end_wait
  lost_callback r o c d h = (
    _,
    (
      go (enters h) (
          go (waits refl refl) (
            go (emits c refl) (
              go (ends_wait refl (one_is_left _)) (
                go (wakes refl) (
                  go (takes refl refl)
                    (go (emits d refl) (go (clears refl) (go (leaves refl) stay)))))))),
      refl,
      refl,
      refl,
    ),
  )
