-- ===== src/Parser/Elements.antt =====
-- libgstd/gstd_parser.c: the commands on the elements of a pipeline, their properties, signals and actions.
use gstd_1_x.Base.{Text, codes, ◌++◌, ◌∷◌, [], Option, none, some, space, get_elem?}
use gstd_1_x.ReturnCode.{null_argument, bad_command}
use gstd_1_x.GLib.{GLib}
use gstd_1_x.Object.{ObjectTree, Command}
use gstd_1_x.Parser.Words.{Argument, str, with_argument, with_token, of_element, of_pipeline}
use gstd_1_x.Parser.Raw.{raw_cmd}

module _ (g : GLib) (t : ObjectTree) where
  open t use {Store}

  -- gstd_parser_element_set
  unfoldable pub element_set : Argument → Command Store Unit
  element_set args = with_argument args null_argument λ line.
      let tokens = g.strsplit line space 4 in
      with_token (get_elem? tokens 0) bad_command λ a.
        with_token (get_elem? tokens 1) bad_command λ b.
          with_token (get_elem? tokens 2) bad_command λ c.
            with_token (get_elem? tokens 3) bad_command λ d.
              raw_cmd g t (some (codes "update"))
                (str (of_element a b (codes "/properties/" ++ c ++ space ∷ d)))

  -- gstd_parser_element_get
  unfoldable pub element_get : Argument → Command Store Unit
  element_get args = with_argument args null_argument λ line.
      let tokens = g.strsplit line space 3 in
      with_token (get_elem? tokens 0) bad_command λ a.
        with_token (get_elem? tokens 1) bad_command λ b.
          with_token (get_elem? tokens 2) bad_command λ c.
            raw_cmd g t (some (codes "read")) (str (of_element a b (codes "/properties/" ++ c)))

  -- gstd_parser_list_elements
  unfoldable pub list_elements : Argument → Command Store Unit
  list_elements args =
      with_argument args null_argument
        λ p. raw_cmd g t (some (codes "read")) (str (of_pipeline p (codes "/elements/")))

  -- gstd_parser_list_properties
  unfoldable pub list_properties : Argument → Command Store Unit
  list_properties args = with_argument args null_argument λ line.
      let tokens = g.strsplit line space 2 in
      with_token (get_elem? tokens 0) bad_command λ a.
        with_token (get_elem? tokens 1) bad_command
          λ b. raw_cmd g t (some (codes "read")) (str (of_element a b (codes "/properties")))

  -- gstd_parser_list_signals
  unfoldable pub list_signals : Argument → Command Store Unit
  list_signals args = with_argument args null_argument λ line.
      let tokens = g.strsplit line space 2 in
      with_token (get_elem? tokens 0) bad_command λ a.
        with_token (get_elem? tokens 1) bad_command
          λ b. raw_cmd g t (some (codes "read")) (str (of_element a b (codes "/signals")))

  -- gstd_parser_signal_connect
  unfoldable pub signal_connect : Argument → Command Store Unit
  signal_connect args = with_argument args null_argument λ line.
      let tokens = g.strsplit line space 3 in
      with_token (get_elem? tokens 0) bad_command λ a.
        with_token (get_elem? tokens 1) bad_command λ b.
          with_token (get_elem? tokens 2) bad_command λ c.
            raw_cmd g t (some (codes "read"))
              (str (of_element a b (codes "/signals/" ++ c ++ codes "/callback")))

  -- gstd_parser_signal_disconnect
  unfoldable pub signal_disconnect : Argument → Command Store Unit
  signal_disconnect args = with_argument args null_argument λ line.
      let tokens = g.strsplit line space 3 in
      with_token (get_elem? tokens 0) bad_command λ a.
        with_token (get_elem? tokens 1) bad_command λ b.
          with_token (get_elem? tokens 2) bad_command λ c.
            raw_cmd g t (some (codes "read"))
              (str (of_element a b (codes "/signals/" ++ c ++ codes "/disconnect")))

  -- gstd_parser_signal_timeout
  unfoldable pub signal_timeout : Argument → Command Store Unit
  signal_timeout args = with_argument args null_argument λ line.
      let tokens = g.strsplit line space 4 in
      with_token (get_elem? tokens 0) bad_command λ a.
        with_token (get_elem? tokens 1) bad_command λ b.
          with_token (get_elem? tokens 2) bad_command λ c.
            with_token (get_elem? tokens 3) bad_command λ d.
              raw_cmd g t (some (codes "update"))
                (str (of_element a b (codes "/signals/" ++ c ++ codes "/timeout " ++ d)))

  -- tokens[3] && tokens[3][0] != '\0'
  abbrev pub with_description : Option Text → Text
  with_description none = []
  with_description (some []) = []
  with_description (some (c ∷ d)) = space ∷ c ∷ d

  -- gstd_parser_action_emit: the name of the action is also the name of what is created.
  unfoldable pub action_emit : Argument → Command Store Unit
  action_emit args = with_argument args null_argument λ line.
      let tokens = g.strsplit line space 4 in
      with_token (get_elem? tokens 0) bad_command λ a.
        with_token (get_elem? tokens 1) bad_command λ b.
          with_token (get_elem? tokens 2) bad_command λ c. raw_cmd g t (some (codes "create")) (
            str (
              of_element a b
                (codes "/actions/" ++ c ++ space ∷ c ++ with_description (get_elem? tokens 3))))
