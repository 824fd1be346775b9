-- ===== src/Http/Callback.antt =====
-- server_callback of libgstd/gstd_http.c, and handle_health_request. The pool of threads runs a request that has been pushed.
use gstd_1_x.Base.{Text, codes, Bool, true, false, ◌∷◌, Option, none, some, text_eq, ◌∷◌}
use gstd_1_x.GLib.{GLib}
use gstd_1_x.Gst.{Gst}
use gstd_1_x.Server.{Rest, Store, server}
use gstd_1_x.Server.Sound.{Listed}
use gstd_1_x.Http.{
  status_ok, status_service_unavailable, Message, Response, JsonGlib, Responded, responded,
  undefined, endless, all_methods, do_request,
}
use gstd_1_x.Parser.Tokens.{EndsWell}
use gstd_1_x.Http.Status.{StateNames, handle_pipelines_status}
use gstd_1_x.Http.ClockSync.{Clocks, handle_clock_sync}

-- handle_health_request
abbrev pub health : Response
health = record {
  status = status_ok;
  body = some (
      codes
        "{\n  \"code\" : 0,\n  \"description\" : \"OK\",\n  \"response\" : {\"status\": \"healthy\"}\n}");
  allow_methods = codes "GET";
}

module _ {W : Type 0} (gst : Gst W) (rest : Rest gst.Element W) (g : GLib) (strstrip : Text → Text)
    (clocks : Clocks gst.Element W) (names : StateNames gst.Element W) (j : JsonGlib) where
  open gst use {Element}

  -- A loop without an end gives no response.
  abbrev with_world : Store Element W → Option (Response × W) → Responded (Store Element W)
  with_world s none = endless
  with_world s (some (r, w)) = responded r (record s { world = w })

  -- Whether g_thread_pool_push has accepted the request.
  abbrev pushed : Bool → Message → Store Element W → Responded (Store Element W)
  pushed true msg s = do_request g (server gst rest) j msg s
  pushed false msg s =
      responded
        (record { status = status_service_unavailable; body = none; allow_methods = all_methods }) s

  -- The tests of the path, in their order.
  abbrev by_path :
      Bool → Bool → Bool → Bool → Message → Store Element W → Responded (Store Element W)
  by_path true status clock accepted msg s = responded health s
  by_path false true clock accepted msg s =
      responded (handle_pipelines_status names s.pipelines s.world) s
  by_path false false true accepted msg s =
      with_world s (handle_clock_sync g strstrip clocks msg.method msg.query s.pipelines s.world)
  by_path false false false accepted msg s = pushed accepted msg s

  -- server_callback
  unfoldable pub server_callback : Bool → Message → Store Element W → Responded (Store Element W)
  unfolding do_request handle_clock_sync handle_pipelines_status
  server_callback accepted msg s =
      by_path (text_eq msg.path (codes "/health")) (text_eq msg.path (codes "/pipelines/status"))
        (text_eq msg.path (codes "/pipelines/clock_sync")) accepted msg s

  -- The list of pipelines is a map with its size, and nothing undefined has happened.
  abbrev pub IsAnswered : Responded (Store Element W) → Type 0
  IsAnswered undefined = ⊥
  IsAnswered endless = ⊥
  IsAnswered (responded r s) = Listed gst rest s

  -- What a request carries, if anything, is a text that is not empty and does not end in a space.
  abbrev pub IsTidy : Option Text → Type 0
  IsTidy none = Unit
  IsTidy (some s) = EndsWell s
