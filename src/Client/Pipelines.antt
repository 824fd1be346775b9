-- ===== src/Client/Pipelines.antt =====
-- libgstc/c/libgstc.c: the functions on pipelines, and on the server itself.
use gstd_1_x.Base.{
  ℤ, pos, zero, Text, codes, Bool, true, false, List, ◌++◌, Option, none, some, is_zero,
}
use gstd_1_x.GLib.{GLib}
use gstd_1_x.Object.{Out, unset}
use gstd_1_x.Client.{Status, null_argument, Call, pure, ◌>>=◌, Network}
use gstd_1_x.Client.Json.{Jansson, Reading, child_string, get_child_char_array}
use gstd_1_x.Client.Commands.{
  Client, given, given_out, words, cmd_send, cmd_create, cmd_read, cmd_update, cmd_delete, taken,
}
use gstd_1_x.Parser.Words.{of_pipeline, or_printed}

abbrev pub text_of_bool : Bool → Text
text_of_bool true = codes "false"
text_of_bool false = codes "true"

-- value == 0 ? "false" : "true"
abbrev pub bool_text : ℤ → Text
bool_text value = text_of_bool (is_zero value)

-- The description of a flush_stop event, by whether the argument is 0.
abbrev pub flush_text : Bool → Text
flush_text true = codes "flush_stop false"
flush_text false = codes "flush_stop true"

module _ {W : Type 0} (net : Network W) (j : Jansson) (client : Client) where
  -- gstc_pipeline_create
  unfoldable pub pipeline_create : Option Text → Option Text → Call W Status
  unfolding cmd_create
  pipeline_create pipeline_name pipeline_desc =
      given pipeline_name λ p.
        given pipeline_desc λ d. cmd_create net j client (codes "/pipelines") (some (words p d))

  -- gstc_pipeline_create_ref, with PIPELINE_CREATE_REF_FORMAT as it stands in the code
  unfoldable pub pipeline_create_ref : Option Text → Option Text → Call W Status
  unfolding cmd_send
  pipeline_create_ref pipeline_name pipeline_desc = given pipeline_name λ p.
      given pipeline_desc
        λ d. cmd_send net j client (words (codes "pipeline_crete_ref") (words p d))

  -- gstc_pipeline_delete
  unfoldable pub pipeline_delete : Option Text → Call W Status
  unfolding cmd_delete
  pipeline_delete pipeline_name =
      given pipeline_name λ p. cmd_delete net j client (codes "/pipelines") (some p)

  -- gstc_pipeline_delete_ref
  unfoldable pub pipeline_delete_ref : Option Text → Call W Status
  unfolding cmd_send
  pipeline_delete_ref pipeline_name =
      given pipeline_name λ p. cmd_send net j client (words (codes "pipeline_delete_ref") p)

  -- gstc_pipeline_play_ref
  unfoldable pub pipeline_play_ref : Option Text → Call W Status
  unfolding cmd_send
  pipeline_play_ref pipeline_name =
      given pipeline_name λ p. cmd_send net j client (words (codes "pipeline_play_ref") p)

  -- gstc_pipeline_stop_ref
  unfoldable pub pipeline_stop_ref : Option Text → Call W Status
  unfolding cmd_send
  pipeline_stop_ref pipeline_name =
      given pipeline_name λ p. cmd_send net j client (words (codes "pipeline_stop_ref") p)

  -- gstc_cmd_change_state
  unfoldable pub cmd_change_state : Text → Text → Call W Status
  unfolding cmd_update
  cmd_change_state pipe state =
      cmd_update net j client (of_pipeline pipe (codes "/state")) (some state)

  -- gstc_pipeline_play
  unfoldable pub pipeline_play : Option Text → Call W Status
  unfolding cmd_change_state
  pipeline_play pipeline_name = given pipeline_name λ p. cmd_change_state p (codes "playing")

  -- gstc_pipeline_pause
  unfoldable pub pipeline_pause : Option Text → Call W Status
  unfolding cmd_change_state
  pipeline_pause pipeline_name = given pipeline_name λ p. cmd_change_state p (codes "paused")

  -- gstc_pipeline_stop
  unfoldable pub pipeline_stop : Option Text → Call W Status
  unfolding cmd_change_state
  pipeline_stop pipeline_name = given pipeline_name λ p. cmd_change_state p (codes "null")

  -- gstc_pipeline_verbose
  unfoldable pub pipeline_verbose : Option Text → ℤ → Call W Status
  unfolding cmd_update
  pipeline_verbose pipeline_name value =
      given pipeline_name
        λ p. cmd_update net j client (of_pipeline p (codes "/verbose")) (some (bool_text value))

  -- gstc_pipeline_get_graph, whose response is that of the read
  unfoldable pub pipeline_get_graph : Option Text → Call W (Status × Out Text)
  unfolding cmd_read
  pipeline_get_graph none = pure (null_argument, unset)
  pipeline_get_graph (some p) =
      cmd_read net j client (of_pipeline p (codes "/graph")) client.timeout

  -- gst_pipeline_get_state
  unfoldable pub pipeline_get_state : Option Text → Call W (Reading j Text)
  unfolding cmd_read child_string
  pipeline_get_state pipeline_name = given_out pipeline_name λ p. do
    r ← cmd_read net j client (of_pipeline p (codes "/state")) client.timeout
    taken net j (λ json. child_string j json (codes "response") (codes "value")) r

  -- The names of the nodes of a response.
  abbrev pub node_names : Status × Out Text → Call W (Reading j (List Text))
  node_names =
      taken net j
        λ json. get_child_char_array j json (codes "response") (codes "nodes") (codes "name")

  -- gstc_pipeline_list
  unfoldable pub pipeline_list : Call W (Reading j (List Text))
  unfolding cmd_read get_child_char_array
  pipeline_list = do r ← cmd_read net j client (codes "/pipelines") client.timeout; node_names r

  -- gstc_pipeline_list_elements
  unfoldable pub pipeline_list_elements : Option Text → Call W (Reading j (List Text))
  unfolding cmd_read get_child_char_array
  pipeline_list_elements pipeline_name = given_out pipeline_name λ p. do
    r ← cmd_read net j client (of_pipeline p (codes "/elements/")) client.timeout
    node_names r

  -- gstc_client_ping
  unfoldable pub client_ping : Call W Status
  unfolding cmd_send
  client_ping = cmd_send net j client (codes "read /")

  -- if (ret != GSTC_OK) return ret;
  abbrev pub and_then : Call W Status → Status → Call W Status
  and_then k (pos zero) = k
  and_then k status = pure status

  -- gstc_client_debug
  unfoldable pub client_debug : Option Text → ℤ → ℤ → Call W Status
  unfolding cmd_update
  client_debug threshold colors reset = given threshold λ level. do
    enabled ← cmd_update net j client (codes "/debug/enable") (some (codes "true"))
    and_then
        (do
          limited ← cmd_update net j client (codes "/debug/threshold") (some level)
          and_then
              (do
                colored ← cmd_update net j client (codes "/debug/color") (some (bool_text colors))
                and_then (cmd_update net j client (codes "/debug/reset") (some (bool_text reset)))
                    colored)
              limited)
        enabled

  -- gstc_pipeline_flush_start
  unfoldable pub pipeline_flush_start : Option Text → Call W Status
  unfolding cmd_create
  pipeline_flush_start pipeline_name =
      given pipeline_name
        λ p. cmd_create net j client (of_pipeline p (codes "/event")) (some (codes "flush_start"))

  -- gstc_pipeline_flush_stop
  unfoldable pub pipeline_flush_stop : Option Text → ℤ → Call W Status
  unfolding cmd_create
  pipeline_flush_stop pipeline_name reset = given pipeline_name λ p.
      cmd_create net j client (of_pipeline p (codes "/event")) (some (flush_text (is_zero reset)))

  -- gstc_pipeline_seek, with the numbers as SEEK_FORMAT prints them
  unfoldable pub pipeline_seek : Option Text → Text → Call W Status
  unfolding cmd_create
  pipeline_seek pipeline_name numbers = given pipeline_name λ p.
      cmd_create net j client (of_pipeline p (codes "/event")) (some (codes "seek " ++ numbers))

  -- gstc_pipeline_inject_eos, which does not check the name: a NULL is printed.
  unfoldable pub pipeline_inject_eos : GLib → Option Text → Call W Status
  unfolding cmd_create
  pipeline_inject_eos g pipeline_name =
      cmd_create net j client
        (of_pipeline (or_printed g.printf_null pipeline_name) (codes "/event")) (some (codes "eos"))
