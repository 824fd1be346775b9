-- ===== src/Examples/Gstreamer.antt =====
-- A small GStreamer for the tests. Its elements are their names, it runs two elements in every
-- pipeline that it launches, and its world is the state that it was last asked for.
use gstd_1_x.Base.{
  Text, codes, refl, true, List, [], ◌∷◌, Option, none, some, text_eq, if◌then◌else◌,
}
use gstd_1_x.Gst.{Gst, GstState, IteratorResult, ok, resync, finished, async, null, paused, playing}

abbrev pub launch : Text → GstState → Option Text × GstState
launch [] w = (none, w)
launch (c ∷ d) w = (some (codes "src"), w)

abbrev pub state_named : Text → Option GstState
state_named v =
    if text_eq v (codes "NULL")
    then some null
    else (if text_eq v (codes "null")
        then some null
        else (if text_eq v (codes "paused")
            then some paused
            else (if text_eq v (codes "playing") then some playing else none)))

abbrev pub elements : List IteratorResult
elements = ok (codes "src") ∷ resync ∷ ok (codes "src") ∷ ok (codes "sink") ∷ finished ∷ []

abbrev pub gstreamer : Gst GstState
gstreamer = record {
  Element = Text;
  parse_launch = launch;
  is_pipeline = λ e. true;
  new_pipeline = λ e w. (e, w);
  set_name = λ e n w. w;
  iterate_elements = λ e w. some elements;
  has_bus = λ e w. true;
  set_state = λ e s w. (async, s);
  pop_error = λ e w. w;
  get_state = λ e w. (w, w);
  deserialize_state = state_named;
  deserialize_name = refl;
  deserialize_null = refl;
  deserialize_paused = refl;
  deserialize_playing = refl;
}
