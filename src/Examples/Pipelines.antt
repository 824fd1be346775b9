-- ===== src/Examples/Pipelines.antt =====
-- Pipelines on the small GStreamer, alone and in their list.
use gstd_1_x.Base.{Text, codes, ◌≡◌, refl, [], ◌∷◌, none, some, arith}
use gstd_1_x.ReturnCode.{missing_name}
use gstd_1_x.NodeList
use gstd_1_x.NodeList.{NodeList, find_child}
use gstd_1_x.NodeList.Laws.{IsValid}
use gstd_1_x.Gst.{null, playing}
use gstd_1_x.State
use gstd_1_x.State.{State, new_state, increment_refcount, decrement_refcount}
use gstd_1_x.State.Laws.{refcount_balance, update_outcome, UpdateOutcome}
use gstd_1_x.Pipeline.{Pipeline, own_name, fill, new_pipeline, build, creator, dispose, deleter}
use gstd_1_x.Pipeline.Laws.{BuildOutcome, build_outcome}
use gstd_1_x.Pipeline.Elements.{schedule, fill_elements}
use gstd_1_x.Pipeline.Listed.{of_name, Added, Deleted, create_pipeline, delete_pipeline}
use gstd_1_x.Examples.Gstreamer.{gstreamer}

abbrev Pipe : Type 0
Pipe = Pipeline Text

abbrev description : Text
description = codes "videotestsrc ! fakesink"

abbrev none_yet : NodeList Pipe
none_yet = NodeList.empty

none_yet-IsValid : IsValid (of_name gstreamer) none_yet
none_yet-IsValid = record { counted = refl; distinct = tt }

abbrev p0 : Pipe
p0 = record (new_pipeline gstreamer (codes "p0") description) {
  pipeline = some (codes "src");
  state = some (new_state (codes "src"));
}

abbrev one : NodeList Pipe
one = record { nodes = p0 ∷ []; count = 1 }

one-IsValid : IsValid (of_name gstreamer) one
one-IsValid = record { counted = refl; distinct = (unfold NodeList.find_node in refl, tt) }

-- The creator refuses a pipeline without a name.
unnamed : (creator gstreamer none (some description) null).0 ≡ (missing_name, none)
unfolding creator
unnamed = refl

refcount_balance_example :
    (decrement_refcount (increment_refcount (new_state (codes "src"))) ≡ new_state (codes "src"))
    × ((increment_refcount (new_state (codes "src"))).refcount ≡ 1)
    × ((decrement_refcount (new_state (codes "src"))).refcount ≡ 0)
refcount_balance_example = refcount_balance (new_state (codes "src")) (omega arith)

update_outcome_example :
    UpdateOutcome gstreamer
      (new_state (codes "src"))
      (codes "playing")
      null
      (State.update gstreamer (new_state (codes "src")) (codes "playing") null)
update_outcome_example = update_outcome gstreamer (new_state (codes "src")) (codes "playing") null

build_outcome_example :
    BuildOutcome gstreamer
      (codes "p0")
      description
      null
      (build gstreamer (new_pipeline gstreamer (codes "p0") description) null)
build_outcome_example = build_outcome gstreamer (codes "p0") description null

fill_elements_example :
    let l = fill 0 NodeList.empty (schedule ((0, codes "src") ∷ (10, codes "sink") ∷ [])) in
    IsValid own_name l × (find_child own_name l (codes "sink") ≡ some (codes "sink"))
fill_elements_example =
    fill_elements ((0, codes "src") ∷ (10, codes "sink") ∷ []) (codes "sink")
      (omega arith, (omega arith, tt))

create_pipeline_example : Added gstreamer (codes "p0") description none_yet null (
    NodeList.create
      (of_name gstreamer)
      (creator gstreamer)
      (dispose gstreamer)
      none_yet
      (some (codes "p0"))
      (some description)
      null)
create_pipeline_example =
    create_pipeline gstreamer (codes "p0") description none_yet null none_yet-IsValid

delete_pipeline_example :
    let r = NodeList.delete (of_name gstreamer) (deleter gstreamer) one (codes "p0") playing in
    IsValid (of_name gstreamer) r.0.1 × Deleted gstreamer one (codes "p0") playing r.0
delete_pipeline_example = delete_pipeline gstreamer one (codes "p0") playing one-IsValid
