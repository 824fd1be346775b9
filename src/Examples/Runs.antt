-- ===== src/Examples/Runs.antt =====
-- What lines of a client do to the small server, computed.
use gstd_1_x.Base.{codes, ◌≡◌, refl, true, false, some}
use gstd_1_x.Action.{done}
use gstd_1_x.GLib.Reference.{reference, strsplit, strsplit_set, strcasecmp}
use gstd_1_x.Object.{Context, object_create, object_read, object_update, object_to_string}
use gstd_1_x.Session.{walk, get_by_uri, child_of}
use gstd_1_x.Parser.Words.{second_token}
use gstd_1_x.Parser.Raw
use gstd_1_x.Parser.Raw.{describe_new, create_named, create_tokens, act, act_on, raw_cmd}
use gstd_1_x.Parser.Pipelines.{pipeline_create, pipeline_play}
use gstd_1_x.Parser.Refs.{refcount_of, increment, play_or_report, pipeline_play_ref}
use gstd_1_x.Parser.Dispatch.{cmds, dispatch, parse_cmd}
use gstd_1_x.Examples.Server
use gstd_1_x.Examples.Server.{server, Server, no_pipelines}

abbrev stopped : Context Server
stopped = record {
  store = record { exists = true; playing = false; clients = 0 };
  response = some (codes "NULL");
}

abbrev shared : Context Server
shared = record {
  store = record { exists = true; playing = true; clients = 1 };
  response = some (codes "PLAYING");
}

-- The pipeline is created, and the response is the resource that has been created.
created :
    parse_cmd reference server (codes "pipeline_create p0 videotestsrc ! fakesink") no_pipelines
    ≡ (done tt, stopped)
unfolding strsplit strsplit_set strcasecmp object_create object_read object_to_string walk
    get_by_uri child_of second_token describe_new create_named create_tokens Raw.create act act_on
    raw_cmd pipeline_create cmds dispatch parse_cmd Server.create Server.read
created = refl

-- The first client that plays it starts it.
played : parse_cmd reference server (codes "pipeline_play_ref p0") stopped ≡ (done tt, shared)
unfolding strsplit strsplit_set strcasecmp object_read object_update object_to_string walk
    get_by_uri child_of second_token Raw.update act act_on raw_cmd pipeline_play refcount_of
    increment play_or_report pipeline_play_ref cmds dispatch parse_cmd Server.read Server.update
played = refl
