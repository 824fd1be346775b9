-- ===== src/Parser/Events.antt =====
-- libgstd/gstd_parser.c: the commands on the bus of a pipeline and on the events sent to it.
use gstd_1_x.Base.{codes, ◌++◌, some, space, get_elem?}
use gstd_1_x.ReturnCode.{null_argument, bad_command}
use gstd_1_x.GLib.{GLib}
use gstd_1_x.Object.{ObjectTree, Command}
use gstd_1_x.Parser.Words.{Argument, str, with_argument, with_token, of_pipeline, or_printed}
use gstd_1_x.Parser.Raw.{raw_cmd}

module _ (g : GLib) (t : ObjectTree) where
  open t use {Store}

  -- gstd_parser_bus_read
  unfoldable pub bus_read : Argument → Command Store Unit
  bus_read args =
      with_argument args null_argument
        λ p. raw_cmd g t (some (codes "read")) (str (of_pipeline p (codes "/bus/message")))

  -- gstd_parser_bus_filter
  unfoldable pub bus_filter : Argument → Command Store Unit
  bus_filter args = with_argument args null_argument λ line.
      let tokens = g.strsplit line space 2 in
      with_token (get_elem? tokens 0) bad_command λ a.
        with_token (get_elem? tokens 1) bad_command
          λ b. raw_cmd g t (some (codes "update")) (str (of_pipeline a (codes "/bus/types " ++ b)))

  -- gstd_parser_bus_timeout
  unfoldable pub bus_timeout : Argument → Command Store Unit
  bus_timeout args = with_argument args null_argument λ line.
      let tokens = g.strsplit line space 2 in
      with_token (get_elem? tokens 0) bad_command λ a.
        with_token (get_elem? tokens 1) bad_command λ b.
          raw_cmd g t (some (codes "update")) (str (of_pipeline a (codes "/bus/timeout " ++ b)))

  -- gstd_parser_event_eos
  unfoldable pub event_eos : Argument → Command Store Unit
  event_eos args =
      with_argument args null_argument
        λ p. raw_cmd g t (some (codes "create")) (str (of_pipeline p (codes "/event eos")))

  -- gstd_parser_event_flush_start
  unfoldable pub event_flush_start : Argument → Command Store Unit
  event_flush_start args =
      with_argument args null_argument
        λ p. raw_cmd g t (some (codes "create")) (str (of_pipeline p (codes "/event flush_start")))

  -- gstd_parser_event_seek: the second token is not checked, and is printed if it is NULL.
  unfoldable pub event_seek : Argument → Command Store Unit
  event_seek args = with_argument args null_argument λ line.
      let tokens = g.strsplit line space 2 in
      with_token (get_elem? tokens 0) bad_command λ a. raw_cmd g t (some (codes "create")) (
        str (of_pipeline a (codes "/event seek " ++ or_printed g.printf_null (get_elem? tokens 1))))

  -- gstd_parser_event_flush_stop: the second token is not checked, and is printed if it is NULL.
  unfoldable pub event_flush_stop : Argument → Command Store Unit
  event_flush_stop args = with_argument args null_argument λ line.
      let tokens = g.strsplit line space 2 in
      with_token (get_elem? tokens 0) bad_command λ a. raw_cmd g t (some (codes "create")) (
        str (
          of_pipeline a
            (codes "/event flush_stop " ++ or_printed g.printf_null (get_elem? tokens 1))))
