-- ===== src/Parser/Pipelines.antt =====
-- libgstd/gstd_parser.c: the commands on pipelines and on the debug settings, each a path and a verb.
use gstd_1_x.Base.{codes, ◌++◌, [], some, space, get_elem?}
use gstd_1_x.ReturnCode.{null_argument, bad_command}
use gstd_1_x.GLib.{GLib}
use gstd_1_x.Object.{ObjectTree, Command}
use gstd_1_x.Parser.Words.{Argument, null, str, with_argument, with_token, of_pipeline}
use gstd_1_x.Parser.Raw.{raw_cmd}

module _ (g : GLib) (t : ObjectTree) where
  open t use {Store}

  abbrev or_empty : Argument → Argument
  or_empty null = str []
  or_empty args = args

  -- gstd_parser_pipeline_create: no argument is an empty one.
  unfoldable pub pipeline_create : Argument → Command Store Unit
  pipeline_create args =
      with_argument (or_empty args) null_argument
        λ p. raw_cmd g t (some (codes "create")) (str (codes "/pipelines " ++ p))

  -- gstd_parser_pipeline_delete
  unfoldable pub pipeline_delete : Argument → Command Store Unit
  pipeline_delete args =
      with_argument args null_argument
        λ p. raw_cmd g t (some (codes "delete")) (str (codes "/pipelines " ++ p))

  -- gstd_parser_pipeline_play
  unfoldable pub pipeline_play : Argument → Command Store Unit
  pipeline_play args =
      with_argument args null_argument
        λ p. raw_cmd g t (some (codes "update")) (str (of_pipeline p (codes "/state playing")))

  -- gstd_parser_pipeline_pause
  unfoldable pub pipeline_pause : Argument → Command Store Unit
  pipeline_pause args =
      with_argument args null_argument
        λ p. raw_cmd g t (some (codes "update")) (str (of_pipeline p (codes "/state paused")))

  -- gstd_parser_pipeline_stop
  unfoldable pub pipeline_stop : Argument → Command Store Unit
  pipeline_stop args =
      with_argument args null_argument
        λ p. raw_cmd g t (some (codes "update")) (str (of_pipeline p (codes "/state null")))

  -- gstd_parser_pipeline_graph
  unfoldable pub pipeline_graph : Argument → Command Store Unit
  pipeline_graph args =
      with_argument args null_argument
        λ p. raw_cmd g t (some (codes "read")) (str (of_pipeline p (codes "/graph")))

  -- gstd_parser_pipeline_verbose
  unfoldable pub pipeline_verbose : Argument → Command Store Unit
  pipeline_verbose args = with_argument args null_argument λ line.
      let tokens = g.strsplit line space 2 in
      with_token (get_elem? tokens 0) bad_command λ a.
        with_token (get_elem? tokens 1) bad_command
          λ b. raw_cmd g t (some (codes "update")) (str (of_pipeline a (codes "/verbose " ++ b)))

  -- gstd_parser_list_pipelines
  unfoldable pub list_pipelines : Argument → Command Store Unit
  list_pipelines args = raw_cmd g t (some (codes "read")) (str (codes "/pipelines"))

  -- gstd_parser_debug_enable
  unfoldable pub debug_enable : Argument → Command Store Unit
  debug_enable args =
      with_argument args bad_command
        λ p. raw_cmd g t (some (codes "update")) (str (codes "/debug/enable " ++ p))

  -- gstd_parser_debug_threshold
  unfoldable pub debug_threshold : Argument → Command Store Unit
  debug_threshold args =
      with_argument args bad_command
        λ p. raw_cmd g t (some (codes "update")) (str (codes "/debug/threshold " ++ p))

  -- gstd_parser_debug_color
  unfoldable pub debug_color : Argument → Command Store Unit
  debug_color args =
      with_argument args bad_command
        λ p. raw_cmd g t (some (codes "update")) (str (codes "/debug/color " ++ p))

  -- gstd_parser_debug_reset
  unfoldable pub debug_reset : Argument → Command Store Unit
  debug_reset args =
      with_argument args bad_command
        λ p. raw_cmd g t (some (codes "update")) (str (codes "/debug/reset " ++ p))
