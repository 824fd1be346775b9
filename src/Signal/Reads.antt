-- ===== src/Signal/Reads.antt =====
-- What one read of "callback" hands over in gstd_signal_reader.c, if it begins when no thread is in
-- gstd_signal_marshal and no callback is left from before.
use mathlib.Core.Path.{subst}
use gstd_1_x.Base.{suc, ◌≤◌, ◌≡◌, inl, inr, refl, sym, Option, none, false, arith}
use gstd_1_x.Signal.{
  Reader, outside, testing, sleeping, enter, take, clear, leave, time_out, make_callback, end_wait,
  disconnect, ◌⟶◌, enters, waits, takes, clears, leaves, wakes, times_out, emits, ends_wait,
  disconnects, ◌⟶*◌, stay, go,
}
use gstd_1_x.Signal.Phases.{
  Ended, Kept, Phase, InRead, InReadOrLater, left, emitted-Phase, end_wait-Phase, disconnect-Phase,
  moved,
}

module _ {Callback : Type 0} where
  step-InRead : {q r s : Reader Callback} → r ⟶ s → InRead q r → InReadOrLater q s
  unfolding enter take clear leave time_out make_callback end_wait disconnect
  step-InRead {q = q} {r = r} (enters h) k = inl (omega (arith, k.first))
  step-InRead {q = q} {r = r} (waits h w) k = inr (record {
    first = k.first;
    timeouts_grow = k.timeouts_grow;
    disconnects_grow = k.disconnects_grow;
    phase = moved q r (sleeping false) (subst (Phase q r) h k.phase);
  })
  step-InRead {q = q} {r = r} (takes h w) k = inr (record {
    first = k.first;
    timeouts_grow = k.timeouts_grow;
    disconnects_grow = k.disconnects_grow;
    phase = left q r r.callback refl (subst (Phase q r) h k.phase) w;
  })
  step-InRead {q = q} {r = r} (clears h) k = inr (record {
    first = k.first;
    timeouts_grow = k.timeouts_grow;
    disconnects_grow = k.disconnects_grow;
    phase = subst (Phase q r) h k.phase;
  })
  step-InRead {q = q} {r = r} (leaves h) k = inr (record {
    first = k.first;
    timeouts_grow = k.timeouts_grow;
    disconnects_grow = k.disconnects_grow;
    phase = (refl, subst (Phase q r) h k.phase);
  })
  step-InRead {q = q} {r = r} (wakes h) k = inr (record {
    first = k.first;
    timeouts_grow = k.timeouts_grow;
    disconnects_grow = k.disconnects_grow;
    phase = moved q r testing (subst (Phase q r) h k.phase);
  })
  step-InRead {q = q} {r = r} (times_out h) k = inr (record {
    first = k.first;
    timeouts_grow = omega (arith, k.timeouts_grow);
    disconnects_grow = k.disconnects_grow;
    phase = (refl, inr (inl (omega (arith, k.timeouts_grow))));
  })
  step-InRead {q = q} {r = r} (emits c h) k = inr (record {
    first = k.first;
    timeouts_grow = k.timeouts_grow;
    disconnects_grow = k.disconnects_grow;
    phase = emitted-Phase q r c r.waiter h k.phase;
  })
  step-InRead {q = q} {r = r} (ends_wait h m) k = inr (record {
    first = k.first;
    timeouts_grow = k.timeouts_grow;
    disconnects_grow = k.disconnects_grow;
    phase = end_wait-Phase q r r.waiter h m k.phase;
  })
  step-InRead {q = q} {r = r} (disconnects h) k = inr (record {
    first = k.first;
    timeouts_grow = k.timeouts_grow;
    disconnects_grow = omega (arith, k.disconnects_grow);
    phase = disconnect-Phase q r r.waiter h k.disconnects_grow k.phase;
  })

  reads_grow : {r s : Reader Callback} → r ⟶ s → r.reads ≤ s.reads
  unfolding enter take clear leave time_out make_callback end_wait disconnect
  reads_grow (enters h) = omega arith
  reads_grow (waits h w) = omega arith
  reads_grow (takes h w) = omega arith
  reads_grow (clears h) = omega arith
  reads_grow (leaves h) = omega arith
  reads_grow (wakes h) = omega arith
  reads_grow (times_out h) = omega arith
  reads_grow (emits c h) = omega arith
  reads_grow (ends_wait h m) = omega arith
  reads_grow (disconnects h) = omega arith

  run-InRead : {q r s : Reader Callback} → r ⟶* s → InReadOrLater q r → InReadOrLater q s
  run-InRead stay k = k
  run-InRead (go h hs) (inl k) = run-InRead hs (inl (omega (arith, reads_grow h)))
  run-InRead (go h hs) (inr k) = run-InRead hs (step-InRead h k)

  -- A read begins when no thread is in gstd_signal_marshal and no callback is left. However the
  -- threads run from then on: when the read has ended, and no other has begun, it has handed over a
  -- callback that was made since it began; or its time has run out, or "disconnect" has been
  -- read meanwhile.
  pub read_signal-Ended :
      (q r : Reader Callback) (o : Option Callback)
      → q.callback ≡ none
      → q.marshals ≡ 0
      → enter q ⟶* r
      → r.reads ≡ suc q.reads
      → r.waiter ≡ outside o
      → Ended q r o
  unfolding enter
  read_signal-Ended q r o hc hm run first h =
      let start : InRead q (enter q) = record {
        first = refl;
        timeouts_grow = omega arith;
        disconnects_grow = omega arith;
        phase = record { kept = subst (Kept q (enter q)) (sym hc) (hm, refl); excuse = λ w e. cc };
      } in
      elim (run-InRead run (inr start)) [
        | inl later ↦ absurd (omega arith)
        | inr k ↦ (subst (Phase q r) h k.phase).1
      ]
