-- ===== src/Signal/Wakes.antt =====
-- No signal is lost on a thread that waits in gstd_signal_reader.c: whoever ends a wait under the lock
-- wakes it, and the thread then leaves by steps of its own.
use gstd_1_x.Base.{◌≡◌, ◌≢◌, refl, Bool, true, false, none}
use gstd_1_x.Signal.{
  Waiter, Reader, outside, testing, sleeping, taken, cleared, new_reader, signalled, enter, take,
  clear, leave, time_out, make_callback, end_wait, disconnect, ◌⟶◌, enters, waits, takes, clears,
  leaves, wakes, times_out, emits, ends_wait, disconnects, ◌⟶*◌, stay, go,
}

module _ {Callback : Type 0} where
  -- A thread that waits and has not been woken has something to wait for.
  abbrev pub IsAwaited : Reader Callback → Type 0
  IsAwaited r = r.waiter ≡ sleeping false → r.waiting_signal ≡ true

  signalled-woken : (w : Waiter Callback) → signalled w ≢ sleeping false
  signalled-woken (outside o) e = cc
  signalled-woken testing e = cc
  signalled-woken (sleeping b) e = cc
  signalled-woken (taken o) e = cc
  signalled-woken (cleared o) e = cc

  ⟶-IsAwaited : {r s : Reader Callback} → r ⟶ s → IsAwaited r → IsAwaited s
  unfolding enter take clear leave time_out make_callback end_wait disconnect
  ⟶-IsAwaited (enters h) k = λ e. cc
  ⟶-IsAwaited (waits h w) k = λ e. w
  ⟶-IsAwaited (takes h w) k = λ e. cc
  ⟶-IsAwaited (clears h) k = λ e. cc
  ⟶-IsAwaited (leaves h) k = λ e. cc
  ⟶-IsAwaited (wakes h) k = λ e. cc
  ⟶-IsAwaited (times_out h) k = λ e. cc
  ⟶-IsAwaited (emits c h) k = k
  ⟶-IsAwaited {r = r} (ends_wait h m) k = λ e. absurd (signalled-woken r.waiter e)
  ⟶-IsAwaited {r = r} (disconnects h) k = λ e. absurd (signalled-woken r.waiter e)

  ⟶*-IsAwaited : {r s : Reader Callback} → r ⟶* s → IsAwaited r → IsAwaited s
  ⟶*-IsAwaited stay k = k
  ⟶*-IsAwaited (go h hs) k = ⟶*-IsAwaited hs (⟶-IsAwaited h k)

  -- In whatever order the threads have run: if a thread waits and what it waits for has ended, it has
  -- been woken, and its next four steps, if no other thread runs between them, end the read with the
  -- callback that there is, which is cleared: it takes the lock, reads the callback, clears it and
  -- leaves.
  pub reader_leaves :
      (r : Reader Callback) (woken : Bool)
      → new_reader ⟶* r
      → r.waiter ≡ sleeping woken
      → r.waiting_signal ≡ false
      → (woken ≡ true)
        × (s : Reader Callback) × (t : Reader Callback) × (u : Reader Callback) × (v : Reader
            Callback)
        × ((r ⟶ s)
            × (s ⟶ t)
            × (t ⟶ u)
            × (u ⟶ v)
            × (v.waiter ≡ outside r.callback)
            × (v.callback ≡ none))
  unfolding take clear leave
  reader_leaves r true hs h w =
      (refl, _, _, _, _, (wakes h, takes refl w, clears refl, leaves refl, refl, refl))
  reader_leaves r false hs h w = cc (⟶*-IsAwaited hs (λ e. cc) h)
