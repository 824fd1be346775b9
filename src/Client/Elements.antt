-- ===== src/Client/Elements.antt =====
-- libgstc/c/libgstc.c: the functions on the elements of a pipeline, their properties, signals and
-- actions.
use gstd_1_x.Base.{ℤ, pos, zero, Text, codes, List, ◌++◌, Option, some, signed}
use gstd_1_x.GLib.{GLib}
use gstd_1_x.Object.{Out, unset}
use gstd_1_x.Client
use gstd_1_x.Client.{Status, ok, null_argument, Call, pure, ◌>>=◌, ◌>>◌, Network}
use gstd_1_x.Client.Json.{Jansson, Reading, child_string, get_child_char_array}
use gstd_1_x.Client.Commands.{Client, given, given_out, cmd_create, cmd_read, cmd_update, taken}
use gstd_1_x.Client.Pipelines.{node_names}
use gstd_1_x.Parser.Words.{of_element, or_printed}

module _ {W : Type 0} (net : Network W) (j : Jansson) (client : Client) where
  -- gstc_element_get, up to the scanning of the value, which goes to the format of the caller
  unfoldable pub element_get : Option Text → Option Text → Option Text → Call W (Reading j Text)
  unfolding cmd_read child_string
  element_get pname element property = given_out pname λ p. given_out element λ e.
      given_out property λ k. do
        r ← cmd_read net j client (of_element p e (codes "/properties/" ++ k)) client.timeout
        taken net j (λ json. child_string j json (codes "response") (codes "value")) r

  -- gstc_element_set, of a value that the caller's format has printed: what the server answers is lost.
  unfoldable pub element_set : Text → Text → Text → Text → Call W Status
  unfolding cmd_update
  element_set pname element parameter how = do
    ignored ←
        cmd_update net j client (of_element pname element (codes "/properties/" ++ parameter))
          (some how)
    pure ok

  -- gstc_element_properties_list
  unfoldable pub element_properties_list :
      Option Text → Option Text → Call W (Reading j (List Text))
  unfolding cmd_read get_child_char_array
  element_properties_list pipeline_name element = given_out pipeline_name λ p.
      given_out element λ e. do
        r ← cmd_read net j client (of_element p e (codes "/properties")) client.timeout
        node_names net j client r

  -- gstc_pipeline_list_signals
  unfoldable pub pipeline_list_signals : Option Text → Option Text → Call W (Reading j (List Text))
  unfolding cmd_read get_child_char_array
  pipeline_list_signals pipeline_name element = given_out pipeline_name λ p. given_out element λ e.
      do
        r ← cmd_read net j client (of_element p e (codes "/signals")) client.timeout
        node_names net j client r

  -- gstc_pipeline_emit_action; the names of pipeline and element are not checked.
  unfoldable pub pipeline_emit_action :
      GLib → Option Text → Option Text → Option Text → Call W Status
  unfolding cmd_create
  pipeline_emit_action g pipeline_name element action =
      cmd_create net j client
        (of_element (or_printed g.printf_null pipeline_name) (or_printed g.printf_null element)
          (codes "/actions/" ++ or_printed g.printf_null action))
        action

  abbrev connected : Text → Status → Call W (Status × Out Text)
  connected what (pos zero) = cmd_read net j client what client.timeout
  connected what status = pure (status, unset)

  -- gstc_pipeline_signal_connect: the timeout is set first.
  unfoldable pub pipeline_signal_connect :
      Option Text → Option Text → Option Text → ℤ → Call W (Status × Out Text)
  unfolding cmd_update cmd_read
  pipeline_signal_connect (some p) (some e) (some s) timeout = do
    status ←
        cmd_update net j client (of_element p e (codes "/signals/" ++ (s ++ codes "/timeout")))
          (some (signed timeout))
    connected (of_element p e (codes "/signals/" ++ (s ++ codes "/callback"))) status
  pipeline_signal_connect _ _ _ timeout = pure (null_argument, unset)

  -- free (response), of a pointer that is not initialised.
  abbrev pub freed : Status × Out Text → Call W Status
  freed (status, unset) w = (Client.undefined, w)
  freed (status, response) w = pure status w

  -- gstc_pipeline_signal_disconnect
  unfoldable pub pipeline_signal_disconnect :
      Option Text → Option Text → Option Text → Call W Status
  unfolding cmd_read
  pipeline_signal_disconnect pipeline_name element signal = given pipeline_name λ p.
      given element λ e. given signal λ s. do
        r ←
            cmd_read net j client (of_element p e (codes "/signals/" ++ (s ++ codes "/disconnect")))
              client.timeout
        freed r
