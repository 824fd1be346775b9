-- ===== src/Parser/Refs.antt =====
-- libgstd/gstd_parser.c: the commands that count how many clients want a pipeline, and how many
-- want it playing.
use gstd_1_x.Base.{
  ℕ, Text, codes, List, [], Option, none, some, Bool, true, false, space, get_elem?, text_eq, ◌==◌,
  if◌then◌else◌,
}
use gstd_1_x.ReturnCode.{null_argument, existing_name, no_pipeline}
use gstd_1_x.Action.{pure, return, undefined, ◌>>=◌, ◌>>◌, check}
use gstd_1_x.GLib.{GLib}
use gstd_1_x.Object.{ObjectTree, Command, call, get_store, object_to_string}
use gstd_1_x.Session.{get_by_uri}
use gstd_1_x.Parser.Words.{Argument, str, with_argument, of_pipeline}
use gstd_1_x.Parser.Pipelines.{pipeline_create, pipeline_delete, pipeline_play, pipeline_stop}

-- g_strcmp0 (a, b) == 0
unfoldable pub same_text : Option Text → Option Text → Bool
same_text none none = true
same_text none (some b) = false
same_text (some a) none = false
same_text (some a) (some b) = text_eq a b

module _ (g : GLib) (t : ObjectTree) where
  open t use {Node, Store}

  -- gstd_list_find_child, whose list and name may be NULL.
  unfoldable pub find_in : Option Node → Option Text → Store → Option Node
  find_in none name s = none
  find_in (some l) none s = none
  find_in (some l) (some name) s = t.find_child l name s

  -- The "refcount" of a node; g_object_get leaves the 0 of a variable if the object is NULL.
  unfoldable pub refcount_of : Option Node → Store → ℕ
  refcount_of none s = 0
  refcount_of (some n) s = t.refcount n s

  -- gstd_pipeline_increment_refcount and gstd_state_increment_refcount
  unfoldable pub increment : Option Node → Command Store Unit
  increment none = return null_argument
  increment (some n) = do code ← call (t.increment_refcount n); check code

  -- gstd_pipeline_decrement_refcount and gstd_state_decrement_refcount
  unfoldable pub decrement : Option Node → Command Store Unit
  decrement none = return null_argument
  decrement (some n) = do code ← call (t.decrement_refcount n); check code

  -- GST_OBJECT_LOCK (pipeline_node) looks into the object.
  abbrev pub lock : Option Node → Command Store Unit
  lock none = undefined
  lock (some n) = pure tt

  -- The two ways of create_ref: a new pipeline, or one of the same description.
  unfoldable pub create_or_share : Text → Option Node → List Text → Option Node → Command Store Unit
  unfolding find_in increment same_text
  create_or_share args list tokens none = do
    pipeline_create g t (str args)
    s ← get_store
    increment (find_in list (get_elem? tokens 0) s)
  create_or_share args list tokens (some p) = do
    s ← get_store
    if same_text (t.description p s) (get_elem? tokens 1)
        then increment (some p)
        else return existing_name

  -- gstd_parser_pipeline_create_ref
  unfoldable pub pipeline_create_ref : Option Text → Argument → Command Store Unit
  unfolding create_or_share
  pipeline_create_ref none arg = return null_argument
  pipeline_create_ref (some action) arg = with_argument arg null_argument λ args.
      let tokens = g.strsplit args space 2 in
      do
        list ← get_by_uri t g (codes "/pipelines")
        s ← get_store
        create_or_share args list tokens (find_in list (get_elem? tokens 0) s)

  -- The last reference deletes the pipeline.
  unfoldable pub delete_or_drop : Text → Option Node → Command Store Unit
  unfolding decrement
  delete_or_drop args none = return no_pipeline
  delete_or_drop args (some p) = do
    s ← get_store
    if t.refcount p s == 1 then pipeline_delete g t (str args) else decrement (some p)

  -- gstd_parser_pipeline_delete_ref
  unfoldable pub pipeline_delete_ref : Option Text → Argument → Command Store Unit
  unfolding delete_or_drop find_in
  pipeline_delete_ref none arg = return null_argument
  pipeline_delete_ref (some action) arg = with_argument arg null_argument λ args. do
    list ← get_by_uri t g (codes "/pipelines")
    s ← get_store
    delete_or_drop args (find_in list (some args) s)

  -- The first play starts the pipeline, any other only reports the state.
  unfoldable pub play_or_report : Text → Option Node → Command Store Unit
  unfolding increment refcount_of
  play_or_report args state = do
    s ← get_store
    if refcount_of state s == 0
        then pipeline_play g t (str args)
        else (do ignored ← object_to_string t state; pure tt)
    increment state

  -- The last stop stops the pipeline, any other only reports the state.
  unfoldable pub stop_or_report : Text → Option Node → Command Store Unit
  unfolding decrement refcount_of
  stop_or_report args state = do
    s ← get_store
    if refcount_of state s == 1
        then pipeline_stop g t (str args)
        else (do ignored ← object_to_string t state; pure tt)
    decrement state

  -- gstd_parser_pipeline_play_ref
  unfoldable pub pipeline_play_ref : Option Text → Argument → Command Store Unit
  unfolding play_or_report
  pipeline_play_ref none arg = return null_argument
  pipeline_play_ref (some action) arg = with_argument arg null_argument λ args. do
    pipeline ← get_by_uri t g (of_pipeline args [])
    state ← get_by_uri t g (of_pipeline args (codes "/state"))
    lock pipeline
    play_or_report args state

  -- gstd_parser_pipeline_stop_ref
  unfoldable pub pipeline_stop_ref : Option Text → Argument → Command Store Unit
  unfolding stop_or_report
  pipeline_stop_ref none arg = return null_argument
  pipeline_stop_ref (some action) arg = with_argument arg null_argument λ args. do
    pipeline ← get_by_uri t g (of_pipeline args [])
    state ← get_by_uri t g (of_pipeline args (codes "/state"))
    lock pipeline
    stop_or_report args state
