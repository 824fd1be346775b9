-- ===== src/Examples/Players.antt =====
-- Clients that want a pipeline playing, at a server on the small GStreamer.
use gstd_1_x.Base.{Text, codes, ◌≡◌, refl, [], ◌∷◌, none, some, arith}
use gstd_1_x.Action.{done}
use gstd_1_x.GLib.Reference.{reference}
use gstd_1_x.Gst.{GstState, playing}
use gstd_1_x.NodeList
use gstd_1_x.State.{State}
use gstd_1_x.Object.{Context}
use gstd_1_x.Parser.Requests.{IsName, literal}
use gstd_1_x.Pipeline.{Pipeline, new_pipeline}
use gstd_1_x.Server.{Store}
use gstd_1_x.Server.Players.{IsPlayedBy, players, players_come_and_go}
use gstd_1_x.Server.References.{Clients}
use gstd_1_x.Examples.Gstreamer.{gstreamer}
use gstd_1_x.Examples.Clients.{bare}

abbrev state : State Text
state = record { state = playing; target = some (codes "src"); refcount = 1 }

abbrev played : Pipeline Text
played = record (new_pipeline gstreamer (codes "p0") (codes "videotestsrc ! fakesink")) {
  pipeline = some (codes "src");
  state = some state;
  refcount = 1;
}

abbrev one_player : Context (Store Text GstState)
one_player = record {
  store = record { pipelines = record { nodes = played ∷ []; count = 1 }; world = playing };
  response = none;
}

p0-IsName : IsName (codes "p0")
p0-IsName = literal _ refl

players_come_and_go_example :
    (c' : Clients reference gstreamer bare) × (players reference gstreamer bare
        (codes "p0")
        3
        one_player
      ≡ (done tt, c'))
    × IsPlayedBy reference gstreamer bare (codes "p0") (λ w. w ≡ playing) 1 c'
players_come_and_go_example =
    players_come_and_go reference gstreamer bare (codes "p0") p0-IsName (λ e. cc) (λ w. w ≡ playing)
      (λ e w q. q) 3 1 one_player (omega arith) (omega arith)
      (played, state, unfold NodeList.find_node NodeList.find_child in refl, refl, refl, refl)
