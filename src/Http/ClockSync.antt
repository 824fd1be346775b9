-- ===== src/Http/ClockSync.antt =====
-- handle_clock_sync of libgstd/gstd_http.c: the clock and the base time of one pipeline are given to
-- others.
use gstd_1_x.Base.{
  ℕ, ◌≡◌, Text, codes, Bool, true, false, List, [], ◌∷◌, ◌++◌, Option, none, some, decimal,
}
use gstd_1_x.GLib.{GLib}
use gstd_1_x.NodeList.{NodeList, find_child}
use gstd_1_x.Pipeline.{Pipeline}
use gstd_1_x.Http.{
  SoupStatus, status_ok, status_bad_request, status_not_found, status_method_not_allowed,
  status_internal_server_error, Method, post, options, Response,
}
use gstd_1_x.Http.Escape.{quote, json_escape_string}

-- What gst_iterator_next returns on the elements inside of a bin.
pub data Inside (E : Type 0) : Type 0 where
  inside : E → Inside E
  resync error : Inside E

-- All that it returns, one after the other. If they end, GST_ITERATOR_DONE follows; otherwise
-- GST_ITERATOR_ERROR follows each time, and the loop has no other end than GST_ITERATOR_DONE.
pub record Iteration (E : Type 0) : Type 0 where
  pub results : List (Inside E)
  pub ends : Bool

-- The calls of GStreamer on clocks, over its world.
pub record Clocks (E W : Type 0) : Type 1 where
  pub Clock : Type 0
  -- gst_element_get_clock; nothing stands for NULL.
  pub get_clock : E → W → Option Clock
  pub get_base_time : E → W → ℕ
  pub set_clock : E → Clock → W → W
  pub set_base_time : E → ℕ → W → W
  -- GST_IS_BIN, and gst_bin_iterate_recurse.
  pub is_bin : E → Bool
  pub iterate_recurse : E → W → Iteration E

-- No iteration goes on for ever.
abbrev pub AllEnd : {E W : Type 0} → Clocks E W → Type 0
AllEnd {E = E} {W = W} clocks = (e : E) (w : W) → (clocks.iterate_recurse e w).ends ≡ true

-- What GStreamer documents of base times, of clocks that are accepted, and of what is inside of a bin.
pub record KeepsBaseTimes {E W : Type 0} (clocks : Clocks E W) : Type 0 where
  -- The base time that an element has been given is the one that it has.
  pub base_time_set :
      (e : E) (b : ℕ) (w : W) → clocks.get_base_time e (clocks.set_base_time e b w) ≡ b
  -- Giving it to one element leaves it to the others, and giving a clock leaves it to all.
  pub base_time_kept :
      (e e' : E) (b : ℕ) (w : W)
      → clocks.get_base_time e w ≡ b
      → clocks.get_base_time e (clocks.set_base_time e' b w) ≡ b
  pub base_time_clock :
      (e e' : E) (c : clocks.Clock) (w : W)
      → clocks.get_base_time e (clocks.set_clock e' c w) ≡ clocks.get_base_time e w
  -- A clock that an element has been given is the one that it has, the same clock given to another
  -- element and any base time leave it.
  pub clock_set :
      (e : E) (c : clocks.Clock) (w : W) → clocks.get_clock e (clocks.set_clock e c w) ≡ some c
  pub clock_kept :
      (e e' : E) (c : clocks.Clock) (w : W)
      → clocks.get_clock e w ≡ some c
      → clocks.get_clock e (clocks.set_clock e' c w) ≡ some c
  pub clock_base_time :
      (e e' : E) (b : ℕ) (w : W)
      → clocks.get_clock e (clocks.set_base_time e' b w) ≡ clocks.get_clock e w
  -- Neither changes what is inside of a bin.
  pub iterate_base_time :
      (e e' : E) (b : ℕ) (w : W)
      → clocks.iterate_recurse e (clocks.set_base_time e' b w) ≡ clocks.iterate_recurse e w
  pub iterate_clock :
      (e e' : E) (c : clocks.Clock) (w : W)
      → clocks.iterate_recurse e (clocks.set_clock e' c w) ≡ clocks.iterate_recurse e w

abbrev pub comma : ℕ
comma = 44

-- The texts of the two arrays, each with its flag first_synced or first_skipped.
abbrev pub Names : Type 0
Names = Text × Bool

abbrev pub quoted : Text → Text
quoted name = quote ∷ json_escape_string name ++ quote ∷ []

abbrev pub append_name : Text → Names → Names
append_name name (text, true) = (text ++ quoted name, false)
append_name name (text, false) = ((text ++ comma ∷ []) ++ quoted name, false)

-- What the loop over the targets has come to.
pub record Progress (W : Type 0) : Type 0 where
  pub synced : Names
  pub skipped : Names
  -- Nothing, once a loop inside does not end.
  pub world : Option W

abbrev pub error_text : Text → Text → Text
error_text code description =
    codes "{ \"code\": "
    ++ (code
        ++ (codes ", \"description\": \"" ++ (description ++ codes "\", \"response\": null }")))

-- The description is that of an error, and the code as it stands there.
abbrev pub error_response : SoupStatus → Text → Text → Response
error_response status code description = record {
  status = status;
  body = some (error_text code description);
  allow_methods = codes "POST";
}

abbrev pub base_time_text : ℕ → Text → Text → Text
base_time_text base synced skipped =
    codes "{ \"code\": 0, \"description\": \"Success\", \"response\": { \"base_time\": "
    ++ (decimal base
        ++ (codes ", \"synced\": "
            ++ (synced ++ (codes ", \"skipped\": " ++ (skipped ++ codes " } }")))))

module _ {E : Type 0} where
  abbrev pub its_name : Pipeline E → Text
  its_name p = p.name

  abbrev pub element_in : Option (Pipeline E) → Option E
  element_in none = none
  element_in (some p) = p.pipeline

module _ {E W : Type 0} (g : GLib) (strstrip : Text → Text) (clocks : Clocks E W) where
  open clocks use {Clock}

  -- gst_element_set_base_time on every element that the iterator hands out; any other result but
  -- GST_ITERATOR_DONE goes on. Nothing stands for a loop without an end.
  unfoldable pub spread : ℕ → List (Inside E) → Bool → W → Option W
  spread base [] true w = some w
  spread base [] false w = none
  spread base (inside e ∷ rest) ends w = spread base rest ends (clocks.set_base_time e base w)
  spread base (resync ∷ rest) ends w = spread base rest ends w
  spread base (error ∷ rest) ends w = spread base rest ends w

  abbrev pub clocked : Option Clock → E → W → W
  clocked none e w = w
  clocked (some c) e w = clocks.set_clock e c w

  abbrev pub spread_in : ℕ → Bool → E → W → Option W
  spread_in base true e w = let it = clocks.iterate_recurse e w in spread base it.results it.ends w
  spread_in base false e w = some w

  -- What is done with the element of a target.
  unfoldable pub sync_element : Option Clock → ℕ → E → W → Option W
  unfolding spread
  sync_element clock base e w =
      spread_in base (clocks.is_bin e) e (clocks.set_base_time e base (clocked clock e w))

  abbrev pub and_then : Option W → (W → Option W) → Option W
  and_then none f = none
  and_then (some w) f = f w

  -- A target that has no element, or is not there, is skipped.
  abbrev pub sync_or_skip : Option Clock → ℕ → Text → Option E → Progress W → Progress W
  sync_or_skip clock base name none r = record r { skipped = append_name name r.skipped }
  sync_or_skip clock base name (some e) r = record r {
    synced = append_name name r.synced;
    world = and_then r.world (sync_element clock base e);
  }

  -- One round of the loop; an empty name is passed over.
  abbrev pub sync_target : NodeList (Pipeline E) → Option Clock → ℕ → Text → Progress W → Progress W
  sync_target pipelines clock base [] r = r
  sync_target pipelines clock base (c ∷ s) r =
      sync_or_skip clock base (c ∷ s) (element_in (find_child its_name pipelines (c ∷ s))) r

  unfoldable pub sync_targets :
      NodeList (Pipeline E) → Option Clock → ℕ → List Text → Progress W → Progress W
  unfolding sync_element
  sync_targets pipelines clock base [] r = r
  sync_targets pipelines clock base (t ∷ ts) r =
      sync_targets pipelines clock base ts (sync_target pipelines clock base (strstrip t) r)

  abbrev pub closed : Names → Text
  closed (text, first) = text ++ codes "]"

  abbrev pub reported : Response → Option W → Option (Response × W)
  reported response none = none
  reported response (some w) = some (response, w)

  abbrev pub success : ℕ → Progress W → Option (Response × W)
  success base r =
      reported
        (record {
          status = status_ok;
          body = some (base_time_text base (closed r.synced) (closed r.skipped));
          allow_methods = codes "POST";
        })
        r.world

  abbrev pub started : W → Progress W
  started w = record { synced = (codes "[", true); skipped = (codes "[", true); world = some w }

  -- From the element of the source on.
  abbrev pub sync_from : NodeList (Pipeline E) → Text → E → W → Option (Response × W)
  sync_from pipelines targets source w =
      let base = clocks.get_base_time source w in
      success base (
        sync_targets pipelines (clocks.get_clock source w) base (g.strsplit targets comma 0)
          (started w))

  abbrev pub on_source :
      NodeList (Pipeline E) → Text → Option (Pipeline E) → W → Option (Response × W)
  on_source pipelines targets none w =
      some (error_response status_not_found (codes "4") (codes "Source pipeline not found"), w)
  on_source pipelines targets (some p) w = elim p.pipeline [
    | none ↦ some (
      error_response status_internal_server_error (codes "5")
          (codes "Source pipeline element not available"),
      w,
    )
    | some e ↦ sync_from pipelines targets e w
  ]

  abbrev pub missing : Response
  missing =
      error_response status_bad_request (codes "1") (
        codes
          "Required query parameters: source=<pipeline> and targets=<pipeline>[,<pipeline>,...]")

  abbrev pub on_names :
      NodeList (Pipeline E) → Option Text → Option Text → W → Option (Response × W)
  on_names pipelines none targets w = some (missing, w)
  on_names pipelines (some source) none w = some (missing, w)
  on_names pipelines (some source) (some []) w = some (missing, w)
  on_names pipelines (some source) (some (c ∷ s)) w =
      on_source pipelines (c ∷ s) (find_child its_name pipelines source) w

  abbrev pub on_query :
      NodeList (Pipeline E) → Option (Text → Option Text) → W → Option (Response × W)
  on_query pipelines none w = some (
    error_response status_bad_request (codes "1")
        (codes "Missing query parameters: source and targets"),
    w,
  )
  on_query pipelines (some lookup) w =
      on_names pipelines (lookup (codes "source")) (lookup (codes "targets")) w

  -- handle_clock_sync
  unfoldable pub handle_clock_sync :
      Method → Option (Text → Option Text) → NodeList (Pipeline E) → W → Option (Response × W)
  unfolding sync_targets
  handle_clock_sync options query pipelines w =
      some (record { status = status_ok; body = none; allow_methods = codes "POST" }, w)
  handle_clock_sync post query pipelines w = on_query pipelines query w
  handle_clock_sync _ query pipelines w = some (
    error_response status_method_not_allowed (codes "1") (codes "Method not allowed: use POST"),
    w,
  )
