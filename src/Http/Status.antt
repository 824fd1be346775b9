-- ===== src/Http/Status.antt =====
-- handle_pipelines_status of libgstd/gstd_http.c: the names of the pipelines and their states.
use gstd_1_x.Base.{
  ◌≡◌, Text, codes, Bool, true, false, List, [], ◌∷◌, ◌++◌, append_assoc, Option, none, some, Free,
  decimal,
}
use gstd_1_x.NodeList.{NodeList}
use gstd_1_x.Pipeline.{Pipeline}
use gstd_1_x.Http.{status_ok, Response}
use gstd_1_x.Http.Escape.{quote, backslash, read_string, read_string-unescaped, IsPlain}

-- GST_STATE of an element by its name, as gst_element_state_get_name gives it, and the name of
-- GST_STATE_NULL.
pub record StateNames (E W : Type 0) : Type 0 where
  pub cached_state : E → W → Text
  pub null_state : Text

module _ {E W : Type 0} (names : StateNames E W) where
  abbrev state_name : Option E → W → Text
  state_name none w = names.null_state
  state_name (some e) w = names.cached_state e w

  abbrev status_entry : Pipeline E → W → Text
  status_entry p w =
      codes "\n      {\"name\": \""
      ++ (p.name ++ (codes "\", \"state\": \"" ++ (state_name p.pipeline w ++ codes "\"}")))

  -- The loop over the copy of the list; the flag is `first`.
  unfoldable pub status_entries : Bool → List (Pipeline E) → W → Text
  status_entries first [] w = []
  status_entries true (p ∷ ps) w = status_entry p w ++ status_entries false ps w
  status_entries false (p ∷ ps) w = codes "," ++ (status_entry p w ++ status_entries false ps w)

  -- handle_pipelines_status
  unfoldable pub handle_pipelines_status : NodeList (Pipeline E) → W → Response
  unfolding status_entries
  handle_pipelines_status pipelines w = record {
    status = status_ok;
    body = some (
        codes
          "{\n  \"code\" : 0,\n  \"description\" : \"OK\",\n  \"response\" : {\n    \"pipelines\": ["
        ++ (status_entries true pipelines.nodes w
            ++ (codes "\n    ],\n    \"count\": "
                ++ (decimal pipelines.count ++ codes "\n  }\n}"))));
    allow_methods = codes "GET";
  }

  abbrev front : Text
  front =
      codes
        "{\n  \"code\" : 0,\n  \"description\" : \"OK\",\n  \"response\" : {\n    \"pipelines\": ["
      ++ codes "\n      {\"name\": \""

  -- The name of a pipeline is not escaped: if the first one has a quote in its name, with no backslash
  -- and no control character before it, then who reads the string behind the opening quote of the name gets only what
  -- stands before that quote.
  pub handle_pipelines_status-unescaped :
      (p : Pipeline E) (ps : NodeList (Pipeline E)) (rest : List (Pipeline E)) (w : W) (s t : Text)
      → ps.nodes ≡ p ∷ rest
      → p.name ≡ s ++ quote ∷ t
      → Free quote s
      → Free backslash s
      → IsPlain s
      → (left : Text) × ((handle_pipelines_status ps w).body ≡ some (front ++ (s ++ quote ∷ left)))
        × (read_string false (s ++ quote ∷ left) ≡ some (s, left))
  unfolding handle_pipelines_status status_entries
  handle_pipelines_status-unescaped p ps rest w s t e n h k q =
      let behind =
        codes ", \"state\": \""
        ++ (state_name p.pipeline w
            ++ (codes "\"}"
                ++ (status_entries false rest w
                    ++ (codes "\n    ],\n    \"count\": "
                        ++ (decimal ps.count ++ codes "\n  }\n}"))))) in
      (t ++ quote ∷ behind, rw (e, n) (simp append_assoc), read_string-unescaped s t behind h k q)
