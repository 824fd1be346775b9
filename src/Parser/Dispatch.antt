-- ===== src/Parser/Dispatch.antt =====
-- libgstd/gstd_parser.c: the table of commands, and the parsing of a line.
use gstd_1_x.Base.{Text, codes, List, [], ◌∷◌, Option, space, get_elem?, if◌then◌else◌}
use gstd_1_x.ReturnCode.{bad_command}
use gstd_1_x.Action.{return}
use gstd_1_x.GLib.{GLib}
use gstd_1_x.Object.{ObjectTree, Command}
use gstd_1_x.Parser.Words.{Argument, second_token}
use gstd_1_x.Parser.Raw.{raw_cmd}
use gstd_1_x.Parser.Pipelines
use gstd_1_x.Parser.Elements
use gstd_1_x.Parser.Events
use gstd_1_x.Parser.Refs

module _ (g : GLib) (t : ObjectTree) where
  open t use {Store}

  -- GstdFunc, without the session and the response, which the context has.
  abbrev pub Callback : Type 0
  Callback = Option Text → Argument → Command Store Unit

  -- A callback that does not look at the action.
  abbrev on_args : (Argument → Command Store Unit) → Callback
  on_args f action args = f args

  -- cmds[]
  unfoldable pub cmds : List (Text × Callback)
  cmds =
      (codes "create", raw_cmd g t)
      ∷ (codes "read", raw_cmd g t)
      ∷ (codes "update", raw_cmd g t)
      ∷ (codes "delete", raw_cmd g t)
      ∷ (codes "pipeline_create", on_args (Pipelines.pipeline_create g t))
      ∷ (codes "pipeline_delete", on_args (Pipelines.pipeline_delete g t))
      ∷ (codes "pipeline_play", on_args (Pipelines.pipeline_play g t))
      ∷ (codes "pipeline_pause", on_args (Pipelines.pipeline_pause g t))
      ∷ (codes "pipeline_stop", on_args (Pipelines.pipeline_stop g t))
      ∷ (codes "pipeline_get_graph", on_args (Pipelines.pipeline_graph g t))
      ∷ (codes "pipeline_verbose", on_args (Pipelines.pipeline_verbose g t))
      ∷ (codes "element_set", on_args (Elements.element_set g t))
      ∷ (codes "element_get", on_args (Elements.element_get g t))
      ∷ (codes "list_pipelines", on_args (Pipelines.list_pipelines g t))
      ∷ (codes "list_elements", on_args (Elements.list_elements g t))
      ∷ (codes "list_properties", on_args (Elements.list_properties g t))
      ∷ (codes "list_signals", on_args (Elements.list_signals g t))
      ∷ (codes "bus_read", on_args (Events.bus_read g t))
      ∷ (codes "bus_filter", on_args (Events.bus_filter g t))
      ∷ (codes "bus_timeout", on_args (Events.bus_timeout g t))
      ∷ (codes "event_eos", on_args (Events.event_eos g t))
      ∷ (codes "event_seek", on_args (Events.event_seek g t))
      ∷ (codes "event_flush_start", on_args (Events.event_flush_start g t))
      ∷ (codes "event_flush_stop", on_args (Events.event_flush_stop g t))
      ∷ (codes "signal_connect", on_args (Elements.signal_connect g t))
      ∷ (codes "signal_timeout", on_args (Elements.signal_timeout g t))
      ∷ (codes "signal_disconnect", on_args (Elements.signal_disconnect g t))
      ∷ (codes "action_emit", on_args (Elements.action_emit g t))
      ∷ (codes "debug_enable", on_args (Pipelines.debug_enable g t))
      ∷ (codes "debug_threshold", on_args (Pipelines.debug_threshold g t))
      ∷ (codes "debug_color", on_args (Pipelines.debug_color g t))
      ∷ (codes "debug_reset", on_args (Pipelines.debug_reset g t))
      ∷ (codes "pipeline_create_ref", Refs.pipeline_create_ref g t)
      ∷ (codes "pipeline_delete_ref", Refs.pipeline_delete_ref g t)
      ∷ (codes "pipeline_play_ref", Refs.pipeline_play_ref g t)
      ∷ (codes "pipeline_stop_ref", Refs.pipeline_stop_ref g t)
      ∷ []

  -- while (cb->cmd): the first entry of the table whose name is the action, whatever its case.
  unfoldable pub dispatch : List (Text × Callback) → Option Text → Argument → Command Store Unit
  dispatch [] action args = return bad_command
  dispatch ((name, callback) ∷ rest) action args =
      let others = dispatch rest action args in
      if g.strcasecmp name action then callback action args else others

  -- gstd_parser_parse_cmd
  unfoldable pub parse_cmd : Text → Command Store Unit
  parse_cmd cmd =
      let tokens = g.strsplit cmd space 2 in
      dispatch cmds (get_elem? tokens 0) (second_token tokens)
