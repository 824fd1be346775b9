-- ===== src/Examples/Waiting.antt =====
-- Threads on the reader of a signal. A callback is a number.
use gstd_1_x.Base.{ℕ, suc, ◌≡◌, refl, none, some, true, false, arith}
use gstd_1_x.Signal.{
  Reader, outside, testing, sleeping, new_reader, enter, take, clear, leave, make_callback,
  end_wait, enters, waits, takes, clears, leaves, wakes, emits, ends_wait, ◌⟶*◌, ◌⟶◌, stay, go,
}
use gstd_1_x.Signal.Runs.{early_end}
use gstd_1_x.Signal.Wakes.{reader_leaves}
use gstd_1_x.Signal.Phases.{Ended}
use gstd_1_x.Signal.Reads.{read_signal-Ended}

-- A thread waits, and a signal has arrived meanwhile.
abbrev asleep : Reader ℕ
asleep = record (enter new_reader) { waiter = sleeping false }

abbrev woken : Reader ℕ
woken = end_wait (make_callback 7 asleep)

in_time : enter new_reader ⟶* woken
unfolding enter make_callback end_wait
in_time = go (waits refl refl) (go (emits 7 refl) (go (ends_wait refl (omega arith)) stay))

abbrev ended : Reader ℕ
ended = leave (some 7) (clear (some 7) (take (record woken { waiter = testing })))

all_of_it : enter new_reader ⟶* ended
unfolding enter make_callback end_wait take clear leave
all_of_it = go (waits refl refl) (
    go (emits 7 refl) (
      go (ends_wait refl (omega arith))
        (go (wakes refl) (go (takes refl refl) (go (clears refl) (go (leaves refl) stay))))))

woken-sleeps : woken.waiter ≡ sleeping true
unfolding enter make_callback end_wait
woken-sleeps = refl

woken-ends : woken.waiting_signal ≡ false
unfolding enter make_callback end_wait
woken-ends = refl

reader_leaves_example :
    (true ≡ true)
    × (s : Reader ℕ) × (t : Reader ℕ) × (u : Reader ℕ) × (v : Reader ℕ) × ((woken ⟶ s)
        × (s ⟶ t)
        × (t ⟶ u)
        × (u ⟶ v)
        × (v.waiter ≡ outside woken.callback)
        × (v.callback ≡ none))
reader_leaves_example = reader_leaves woken true (go (enters refl) in_time) woken-sleeps woken-ends

ended-once : ended.reads ≡ 1
unfolding enter make_callback end_wait take clear leave
ended-once = refl

ended-ends : ended.waiter ≡ outside (some 7)
unfolding enter make_callback end_wait take clear leave
ended-ends = refl

read_signal-Ended_example : Ended new_reader ended (some 7)
read_signal-Ended_example =
    read_signal-Ended new_reader ended (some 7) refl refl all_of_it ended-once ended-ends

early_end_example :
    (s : Reader ℕ) × (t : Reader ℕ) × ((new_reader ⟶* s)
      × (s ⟶* t)
      × (s.waiter ≡ outside (some 8))
      × (t.waiter ≡ outside none)
      × (t.reads ≡ suc s.reads)
      × (t.disconnects ≡ 0)
      × (t.timeouts ≡ 0))
early_end_example = early_end new_reader none 7 8 refl
