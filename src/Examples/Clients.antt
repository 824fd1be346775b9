-- ===== src/Examples/Clients.antt =====
-- Clients that share a pipeline of a server on the small GStreamer.
use gstd_1_x.Base.{Text, codes, ◌≡◌, refl, [], ◌∷◌, none, some, arith}
use gstd_1_x.ReturnCode.{eok, no_resource, no_create, no_update}
use gstd_1_x.Action.{done}
use gstd_1_x.GLib.Reference.{reference}
use gstd_1_x.Gst.{GstState, playing}
use gstd_1_x.NodeList
use gstd_1_x.NodeList.{NodeList}
use gstd_1_x.NodeList.Laws.{IsValid}
use gstd_1_x.State.{new_state}
use gstd_1_x.Object.{Context, unset, null}
use gstd_1_x.Parser.Requests.{literal, IsName-IsSegment}
use gstd_1_x.Pipeline.{Pipeline, new_pipeline}
use gstd_1_x.Server.{Rest, Store, pipe_name, server, other}
use gstd_1_x.Session.{get_by_uri}
use gstd_1_x.Server.Paths.{get_by_uri-pipeline}
use gstd_1_x.Server.References.{clients, goes, clients_come_and_go}
use gstd_1_x.Server.LastReference.{LastEnds, last_client_deletes}
use gstd_1_x.Examples.Gstreamer.{gstreamer}

-- Nothing but the pipelines and their states.
abbrev pub bare : Rest Text GstState
bare = record {
  Other = Unit;
  read_session = λ n w. (no_resource, unset);
  read_pipeline = λ p n w. (no_resource, unset);
  count_property = tt;
  create = λ o n d w. (no_create, w);
  read = λ o n w. ((no_resource, null), w);
  update = λ o v w. (no_update, w);
  delete = λ o n w. (eok, w);
  print = λ o w. ((eok, none), w);
  print_session = λ l w. codes "{}";
  print_list = λ l. codes "{}";
  print_pipeline = λ p w. codes "{}";
  print_state = λ s. codes "{}";
}

abbrev description : Text
description = codes "videotestsrc ! fakesink"

abbrev shared : Pipeline Text
shared = record (new_pipeline gstreamer (codes "p0") description) {
  pipeline = some (codes "src");
  state = some (new_state (codes "src"));
  refcount = 1;
}

abbrev pub running : Context (Store Text GstState)
running = record {
  store = record { pipelines = record { nodes = shared ∷ []; count = 1 }; world = playing };
  response = none;
}

pub running-IsValid : IsValid (pipe_name gstreamer) running.store.pipelines
running-IsValid = record { counted = refl; distinct = (unfold NodeList.find_node in refl, tt) }

clients_come_and_go_example :
    clients reference gstreamer bare 3 (codes "p0") description running ≡ (done tt, running)
clients_come_and_go_example =
    clients_come_and_go reference gstreamer bare 3 (codes "p0") description running shared
      (literal _ refl) (unfold NodeList.find_node NodeList.find_child in refl) refl (omega arith)
      (omega arith)

last_client_deletes_example :
    LastEnds reference gstreamer bare
      (codes "p0")
      running
      shared
      (goes reference gstreamer bare (codes "p0") running)
last_client_deletes_example =
    last_client_deletes reference gstreamer bare (codes "p0") running shared (literal _ refl)
      running-IsValid (unfold NodeList.find_node NodeList.find_child in refl) refl

-- A pipeline of the name "count" is there, and its path leads to the number of pipelines.
abbrev counted : Context (Store Text GstState)
counted = record running {
  store = record {
    pipelines = record { nodes = record shared { name = codes "count" } ∷ []; count = 1 };
    world = playing;
  };
}

get_by_uri-pipeline_example :
    get_by_uri (server gstreamer bare) reference (codes "/pipelines/count") counted
    ≡ (done (some (other tt)), counted)
get_by_uri-pipeline_example =
    get_by_uri-pipeline reference gstreamer bare (codes "count") counted
      (IsName-IsSegment (literal _ refl))
