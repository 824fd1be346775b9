-- ===== src/Signal.antt =====
-- libgstd/gstd_signal_reader.c: a client that reads "callback" waits for a signal of an element. The
-- threads that share the reader are the one that reads, those of GStreamer that call
-- gstd_signal_marshal, and those of clients that read "disconnect". One step is what a thread does
-- between two operations on the lock or the condition.
pub mod Runs
pub mod Wakes
pub mod Phases
pub mod Reads
use gstd_1_x.Base.{
  ℕ, suc, ◌-◌, ◌<◌, ◌≡◌, ◌≢◌, List, [], ◌∷◌, Option, none, some, Bool, true, false, if◌then◌else◌,
}

-- Where the thread that reads stands: outside of gstd_signal_reader_read_signal, having returned what
-- it says, if it has; holding the lock, at the test of a loop; in g_cond_wait or g_cond_wait_until,
-- which have released the lock, and whether the condition has been signalled since; or holding the lock
-- behind the loops, before and after self->callback is cleared, with what it has read there.
pub data Waiter (Callback : Type 0) : Type 0 where
  outside : Option Callback → Waiter Callback
  testing : Waiter Callback
  sleeping : Bool → Waiter Callback
  taken : Option Callback → Waiter Callback
  cleared : Option Callback → Waiter Callback

-- The fields waiting_signal and callback, the handler that is connected, and how many threads are in
-- gstd_signal_marshal between making the callback and taking the lock. The last four
-- are not in the program: the callbacks made, the last one first, how often "disconnect" and "callback"
-- were read, and how many waits have timed out. Two reads of "callback" do not overlap here.
pub record Reader (Callback : Type 0) : Type 0 where
  pub waiting_signal : Bool
  pub callback : Option Callback
  pub connected : Bool
  pub waiter : Waiter Callback
  pub marshals : ℕ
  pub emitted : List Callback
  pub disconnects : ℕ
  pub reads : ℕ
  pub timeouts : ℕ

module _ {Callback : Type 0} where
  -- gstd_signal_reader_init; the instance is zeroed.
  abbrev pub new_reader : Reader Callback
  new_reader = record {
    waiting_signal = false;
    callback = none;
    connected = false;
    waiter = outside none;
    marshals = 0;
    emitted = [];
    disconnects = 0;
    reads = 0;
    timeouts = 0;
  }

  -- The thread that reads holds the lock from the test of the loop on. The other sections under the
  -- lock are one step.
  abbrev pub holds_lock : Waiter Callback → Bool
  holds_lock (outside o) = false
  holds_lock testing = true
  holds_lock (sleeping woken) = false
  holds_lock (taken o) = true
  holds_lock (cleared o) = true

  abbrev pub Unlocked : Reader Callback → Type 0
  Unlocked r = holds_lock r.waiter ≡ false

  -- What a signal of the condition does: it wakes a thread that waits, and is lost otherwise.
  abbrev pub signalled : Waiter Callback → Waiter Callback
  signalled (sleeping woken) = sleeping true
  signalled w = w

  -- gstd_signal_reader_read_signal up to its loops.
  unfoldable pub enter : Reader Callback → Reader Callback
  enter r = record r {
    waiting_signal = true;
    connected = true;
    waiter = testing;
    reads = suc r.reads;
  }

  -- The end of the loop: *out = self->callback, if there is one.
  unfoldable pub take : Reader Callback → Reader Callback
  take r = record r { waiter = taken r.callback }

  -- self->callback = NULL, whatever it is by now: gstd_signal_marshal writes it without the lock.
  unfoldable pub clear : Option Callback → Reader Callback → Reader Callback
  clear o r = record r { callback = none; waiter = cleared o }

  -- The handler is disconnected and the lock released.
  unfoldable pub leave : Option Callback → Reader Callback → Reader Callback
  leave o r = record r { connected = false; waiter = outside o }

  -- A timeout: nothing is handed over, and the callback is not cleared.
  unfoldable pub time_out : Reader Callback → Reader Callback
  time_out r = record r { connected = false; waiter = outside none; timeouts = suc r.timeouts }

  -- gstd_signal_marshal before it takes the lock.
  unfoldable pub make_callback : Callback → Reader Callback → Reader Callback
  make_callback c r = record r {
    callback = some c;
    marshals = suc r.marshals;
    emitted = c ∷ r.emitted;
  }

  -- What it does under the lock.
  unfoldable pub end_wait : Reader Callback → Reader Callback
  end_wait r = record r {
    waiting_signal = false;
    waiter = signalled r.waiter;
    marshals = r.marshals - 1;
  }

  -- gstd_signal_reader_disconnect
  unfoldable pub disconnect : Reader Callback → Reader Callback
  disconnect r = record r {
    waiting_signal = false;
    waiter = signalled r.waiter;
    disconnects = suc r.disconnects;
  }

  infix 20 ◌⟶◌
  -- A step of one of the threads. A wait ends when it has been signalled, or without a reason; it can
  -- time out at any moment, as the clock is not modelled.
  pub data ◌⟶◌ : Reader Callback → Reader Callback → Type 0 where
    enters : {r : Reader Callback} {o : Option Callback} → r.waiter ≡ outside o → r ⟶ enter r
    waits :
        {r : Reader Callback}
        → r.waiter ≡ testing
        → r.waiting_signal ≡ true
        → r ⟶ record r { waiter = sleeping false }
    takes : {r : Reader Callback} → r.waiter ≡ testing → r.waiting_signal ≡ false → r ⟶ take r
    clears : {r : Reader Callback} {o : Option Callback} → r.waiter ≡ taken o → r ⟶ clear o r
    leaves : {r : Reader Callback} {o : Option Callback} → r.waiter ≡ cleared o → r ⟶ leave o r
    wakes :
        {r : Reader Callback} {woken : Bool}
        → r.waiter ≡ sleeping woken
        → r ⟶ record r { waiter = testing }
    times_out : {r : Reader Callback} {woken : Bool} → r.waiter ≡ sleeping woken → r ⟶ time_out r
    emits : {r : Reader Callback} (c : Callback) → r.connected ≡ true → r ⟶ make_callback c r
    ends_wait : {r : Reader Callback} → Unlocked r → 0 < r.marshals → r ⟶ end_wait r
    disconnects : {r : Reader Callback} → Unlocked r → r ⟶ disconnect r

  infix 20 ◌⟶*◌
  -- Any number of steps.
  pub data ◌⟶*◌ : Reader Callback → Reader Callback → Type 0 where
    stay : {r : Reader Callback} → r ⟶* r
    go : {r s t : Reader Callback} → r ⟶ s → s ⟶* t → r ⟶* t
