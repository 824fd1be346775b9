-- ===== src/State.antt =====
-- libgstd/gstd_state.c: the state of a pipeline, and the number of clients that want it playing.
pub mod Laws
use gstd_1_x.Base.{ℕ, ◌+◌, ◌-◌, ◌%◌, Text, Option, none, some, ltb, if◌then◌else◌}
use gstd_1_x.ReturnCode.{ReturnCode, eok, null_argument, bad_value, state_error}
use gstd_1_x.NodeList.{guint_mod, guint_decrement}
use gstd_1_x.Gst
use gstd_1_x.Gst.{Gst, GstState, StateChange, failure}

-- struct _GstdState
pub record State (Element : Type 0) : Type 0 where
  pub state : GstState
  pub target : Option Element
  pub refcount : ℕ

module _ {Element : Type 0} where
  -- gstd_state_new, for a target that is not NULL, with gstd_state_init.
  abbrev pub new_state : Element → State Element
  new_state target = record { state = Gst.null; target = some target; refcount = 0 }

  -- gstd_state_increment_refcount
  unfoldable pub increment_refcount : State Element → State Element
  increment_refcount self = record self { refcount = (self.refcount + 1) % guint_mod }

  -- gstd_state_decrement_refcount
  unfoldable pub decrement_refcount : State Element → State Element
  decrement_refcount self =
      if ltb 0 self.refcount then record self { refcount = guint_decrement self.refcount } else self

module _ {W : Type 0} (gst : Gst W) where
  open gst use {Element}

  -- What gstd_state_update makes of the result of gst_element_set_state: a change that goes on
  -- asynchronously is as good as one that is done.
  abbrev changed :
      State Element → Element → GstState → StateChange × W → (ReturnCode × State Element) × W
  changed self target state (failure, w) = ((state_error, self), gst.pop_error target w)
  changed self target state (change, w) = ((eok, record self { state = state }), w)

  abbrev change_to :
      State Element → Option Element → Option GstState → W → (ReturnCode × State Element) × W
  change_to self target none w = ((bad_value, self), w)
  change_to self none (some state) w = ((null_argument, self), w)
  change_to self (some target) (some state) w =
      changed self target state (gst.set_state target state w)

  -- gstd_state_update
  unfoldable pub update : State Element → Text → W → (ReturnCode × State Element) × W
  update self sstate w = change_to self self.target (gst.deserialize_state sstate) w

  abbrev current : Option Element → W → GstState × W
  current none w = (Gst.null, w)
  current (some target) w = gst.get_state target w

  -- gstd_state_read, and what gstd_state_to_string does with it: the cached state is refreshed.
  unfoldable pub refresh : State Element → W → State Element × W
  refresh self w = let (state, w') = current self.target w in (record self { state = state }, w')
