-- ===== src/Examples/Web.antt =====
-- Requests over HTTP.
use gstd_1_x.Base.{
  ℕ, ◌≡◌, refl, Text, codes, true, false, [], ◌∷◌, ◌++◌, Option, none, some, All, text_eq,
  text_eq_refl, if◌then◌else◌, arith,
}
use gstd_1_x.ReturnCode.{eok}
use gstd_1_x.Action.{done}
use gstd_1_x.Answer.{answer}
use gstd_1_x.GLib.{GLib}
use gstd_1_x.GLib.Reference.{reference}
use gstd_1_x.NodeList.{NodeList}
use gstd_1_x.Gst.{GstState}
use gstd_1_x.Pipeline.{Pipeline, new_pipeline}
use gstd_1_x.Parser.Words.{str}
use gstd_1_x.Parser.Requests.{update_at, run, literal}
use gstd_1_x.Http.{
  Message, post, put, delete, status_ok, JsonGlib, responded, all_methods, do_request,
}
use gstd_1_x.Http.Requests.{do_request-run}
use gstd_1_x.Http.Carried.{InBody, in_object, by_query, succeeded}
use gstd_1_x.Http.Escape.{quote, json_escape_string, read_string, read_string-json_escape_string}
use gstd_1_x.Http.ClockSync.{
  inside, resync, Clocks, KeepsBaseTimes, base_time_text, handle_clock_sync,
}
use gstd_1_x.Http.Synced.{IsClock, array_text, handle_clock_sync-synced}
use gstd_1_x.Http.Status.{StateNames}
use gstd_1_x.Examples.Server.{Server, server}
use gstd_1_x.Examples.Gstreamer.{gstreamer}

-- No body is JSON.
abbrev no_json : JsonGlib
no_json = record {
  Node = Unit;
  load = λ s. none;
  holds_object = λ r. false;
  has_member = λ r k. false;
  string_member = λ r k. none;
  str_has_prefix = λ s p. false;
}

abbrev one : Server
one = record { exists = true; playing = false; clients = 0 }

abbrev now_playing : Server
now_playing = record { exists = true; playing = true; clients = 0 }

abbrev query : Text → Option Text
query k = if text_eq k (codes "name") then some (codes "playing") else none

-- PUT /pipelines/p0/state?name=playing
abbrev play_message : Message
play_message = record {
  method = put;
  path = codes "/pipelines/p0/state";
  query = some query;
  content_type = none;
  body = none;
}

played :
    run reference server
      (update_at (codes "pipelines" ∷ codes "p0" ∷ codes "state" ∷ []) (str (codes "playing")))
      (record { store = one; response = none })
    ≡ (done tt, record { store = now_playing; response = some (codes "PLAYING") })
unfolding run gstd_1_x.Session.walk gstd_1_x.Object.object_read gstd_1_x.Examples.Server.read
    gstd_1_x.Parser.Raw.update gstd_1_x.Object.object_update gstd_1_x.Examples.Server.update
    gstd_1_x.Object.object_to_string
played = refl

no_body :
    {type : Option Text} (key s : Text) (body : Option Text)
    → body ≡ none
    → ¬ InBody no_json type body key s
no_body key s body e (in_object n p l h m v) = cc e

do_request-run_example :
    do_request reference server no_json play_message one
    ≡ responded
        (record {
          status = status_ok;
          body = some (answer eok (some (codes "PLAYING")));
          allow_methods = all_methods;
        })
        now_playing
do_request-run_example =
    do_request-run reference server no_json play_message (codes "pipelines")
      (codes "p0" ∷ codes "state" ∷ []) (some (codes "playing")) none
      (update_at (codes "pipelines" ∷ codes "p0" ∷ codes "state" ∷ []) (str (codes "playing"))) one
      (done tt) (record { store = now_playing; response = some (codes "PLAYING") }) eok status_ok
      refl (literal _ refl, (literal _ refl, (literal _ refl, tt)))
      (by_query (λ s. no_body (codes "name") s none refl) refl)
      (by_query (λ s. no_body (codes "description") s none refl) refl) refl played refl succeeded

abbrev nameless_message : Message
nameless_message = record {
  method = delete;
  path = codes "/pipelines";
  query = none;
  content_type = none;
  body = none;
}

read_string-json_escape_string_example :
    read_string false (json_escape_string (codes "a\"b\\") ++ quote ∷ codes "}")
    ≡ some (codes "a\"b\\", codes "}")
read_string-json_escape_string_example =
    read_string-json_escape_string (codes "a\"b\\") (codes "}")
      (omega arith, (omega arith, (omega arith, (omega arith, tt))))

-- GStreamer as far as base times go: each element, known by its name, has one, and there is no clock.
abbrev time_given : Text → ℕ → (Text → ℕ) → Text → ℕ
time_given e b w x = if text_eq x e then b else w x

abbrev times : Clocks Text (Text → ℕ)
times = record {
  Clock = Unit;
  get_clock = λ e w. some tt;
  get_base_time = λ e w. w e;
  set_clock = λ e c w. w;
  set_base_time = time_given;
  is_bin = λ e. true;
  iterate_recurse = λ e w. record { results = inside (codes "src") ∷ resync ∷ []; ends = true };
}

times_kept : (e e' : Text) (b : ℕ) (w : Text → ℕ) → w e ≡ b → time_given e' b w e ≡ b
times_kept e e' b w h = ground (arith, h)

times-KeepsBaseTimes : KeepsBaseTimes times
times-KeepsBaseTimes = record {
  base_time_set = λ e b w. ground (arith, text_eq_refl e);
  base_time_kept = times_kept;
  base_time_clock = λ e e' c w. refl;
  clock_set = λ e c w. refl;
  clock_kept = λ e e' c w h. h;
  clock_base_time = λ e e' b w. refl;
  iterate_base_time = λ e e' b w. refl;
  iterate_clock = λ e e' c w. refl;
}

abbrev pipeline_of : Text → Option Text → Pipeline Text
pipeline_of name element = record (new_pipeline gstreamer name (codes "fakesrc ! fakesink")) {
  pipeline = element;
}

abbrev three : NodeList (Pipeline Text)
three = record {
  nodes =
      pipeline_of (codes "in") (some (codes "in"))
      ∷ (pipeline_of (codes "out") (some (codes "out")) ∷ (pipeline_of (codes "raw") none ∷ []));
  count = 3;
}

abbrev sync_query : Text → Option Text
sync_query k =
    if text_eq k (codes "source")
    then some (codes "in")
    else (if text_eq k (codes "targets") then some (codes "out,,raw,gone") else none)

abbrev start : Text → ℕ
start e = if text_eq e (codes "in") then 42 else 0

handle_clock_sync-synced_example :
    (w' : Text → ℕ) × (handle_clock_sync reference (λ s. s) times post (some sync_query) three start
      ≡ some (
        record {
          status = status_ok;
          body = some (
              base_time_text 42
                (array_text (codes "out" ∷ []))
                (array_text (codes "raw" ∷ (codes "gone" ∷ []))));
          allow_methods = codes "POST";
        },
        w',
      ))
    × All (λ x. w' x ≡ 42) (codes "out" ∷ (codes "src" ∷ []))
    × All (λ x. IsClock reference (λ s. s) times (some tt) (some tt)) (codes "out" ∷ [])
unfolding gstd_1_x.NodeList.find_node gstd_1_x.NodeList.find_child gstd_1_x.GLib.Reference.strsplit
handle_clock_sync-synced_example =
    handle_clock_sync-synced reference (λ s. s) times times-KeepsBaseTimes (λ e w. refl) sync_query
      three start (codes "in") 111 (codes "ut,,raw,gone")
      (pipeline_of (codes "in") (some (codes "in"))) (codes "in") refl refl refl refl

abbrev state_names : StateNames Text GstState
state_names = record { cached_state = λ e w. codes "PLAYING"; null_state = codes "NULL" }

-- GStreamer without clocks.
abbrev no_clocks : Clocks Text GstState
no_clocks = record {
  Clock = Unit;
  get_clock = λ e w. none;
  get_base_time = λ e w. 0;
  set_clock = λ e c w. w;
  set_base_time = λ e b w. w;
  is_bin = λ e. false;
  iterate_recurse = λ e w. record { results = []; ends = true };
}
