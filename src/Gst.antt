-- ===== src/Gst.antt =====
-- What the program calls of GStreamer, a library of its own: an interface over a world `W` that its
-- calls change.
use gstd_1_x.Base.{Text, codes, ◌≡◌, List, Bool, Option, some}

-- GstState, as far as gstd_state.c names it.
pub data GstState : Type 0 where
  null ready paused playing : GstState

-- GstStateChangeReturn
pub data StateChange : Type 0 where
  failure success async no_preroll : StateChange

-- What gst_iterator_next returns, with the name of the element that it hands out.
pub data IteratorResult : Type 0 where
  ok : Text → IteratorResult
  resync error finished : IteratorResult

pub record Gst (W : Type 0) : Type 1 where
  pub Element : Type 0
  -- gst_parse_launch_full; nothing stands for NULL.
  pub parse_launch : Text → W → Option Element × W
  -- GST_IS_PIPELINE, and gst_pipeline_new with gst_bin_add.
  pub is_pipeline : Element → Bool
  pub new_pipeline : Element → W → Element × W
  -- gst_object_set_name
  pub set_name : Element → Text → W → W
  -- gst_bin_iterate_elements, and what gst_iterator_next returns from then on.
  pub iterate_elements : Element → W → Option (List IteratorResult)
  -- Whether gst_pipeline_get_bus returns a bus that gstd_pipeline_bus_new can wrap.
  pub has_bus : Element → W → Bool
  pub set_state : Element → GstState → W → StateChange × W
  -- gst_element_get_bus and gst_bus_pop_filtered, for the message of a failure.
  pub pop_error : Element → W → W
  -- gst_element_get_state, the current state after the time that it waits.
  pub get_state : Element → W → GstState × W
  -- gst_value_deserialize at the type of the states, which knows them by name and by nick.
  pub deserialize_state : Text → Option GstState
  pub deserialize_name : deserialize_state (codes "NULL") ≡ some null
  pub deserialize_null : deserialize_state (codes "null") ≡ some null
  pub deserialize_paused : deserialize_state (codes "paused") ≡ some paused
  pub deserialize_playing : deserialize_state (codes "playing") ≡ some playing
