-- ===== src/Server.antt =====
-- The tree of resources of a server, as far as the pipelines and their states go: how
-- libgstd/gstd_session.c, gstd_object.c, gstd_list.c, gstd_list_reader.c, gstd_property_reader.c and
-- gstd_pipeline.c are put together. What stands beside and below these is a parameter.
pub mod Sound
pub mod Reads
pub mod Paths
pub mod References
pub mod LastReference
pub mod Players
use mathlib.Core.Option
use gstd_1_x.Base.{
  ℕ, Text, codes, List, [], ◌∷◌, Option, none, some, Bool, true, false, ◌&&◌, text_eq,
  if◌then◌else◌,
}
use gstd_1_x.ReturnCode.{ReturnCode, eok, null_argument, no_create, no_read, no_update, no_resource}
use gstd_1_x.NodeList
use gstd_1_x.NodeList.{NodeList, change_node, find_child}
use gstd_1_x.Gst.{Gst}
use gstd_1_x.State
use gstd_1_x.State.{State}
use gstd_1_x.Pipeline
use gstd_1_x.Pipeline.{Pipeline, creator, deleter, dispose}
use gstd_1_x.Object
use gstd_1_x.Object.{ObjectTree, Out, unset, at}

-- The list of pipelines, and the world of GStreamer.
pub record Store (Element W : Type 0) : Type 0 where
  pub pipelines : NodeList (Pipeline Element)
  pub world : W

-- A resource. A pipeline and its state are known by the name of the pipeline.
pub data Place (Other : Type 0) : Type 0 where
  session : Place Other
  pipelines : Place Other
  pipeline : Text → Place Other
  state : Text → Place Other
  other : Other → Place Other

-- The resources that are not modelled. They change the world of GStreamer, but not the list of
-- pipelines and what is recorded there.
pub record Rest (Element W : Type 0) : Type 1 where
  pub Other : Type 0
  -- The property reader on any other property of the session, and of a pipeline.
  pub read_session : Text → W → ReturnCode × Out Other
  pub read_pipeline : Pipeline Element → Text → W → ReturnCode × Out Other
  pub count_property : Other
  pub create : Other → Option Text → Option Text → W → ReturnCode × W
  pub read : Other → Option Text → W → (ReturnCode × Out Other) × W
  pub update : Other → Text → W → ReturnCode × W
  pub delete : Other → Text → W → ReturnCode × W
  pub print : Other → W → (ReturnCode × Option Text) × W
  -- The JSON texts of the resources.
  pub print_session : NodeList (Pipeline Element) → W → Text
  pub print_list : NodeList (Pipeline Element) → Text
  pub print_pipeline : Pipeline Element → W → Text
  pub print_state : State Element → Text

abbrev pub is_some : {A : Type 0} → Option A → Bool
is_some none = false
is_some (some a) = true

abbrev pub mapped : {A B : Type 0} → (A → B) → ReturnCode × Out A → ReturnCode × Out B
mapped f (code, unset) = (code, unset)
mapped f (code, Object.null) = (code, Object.null)
mapped f (code, at x) = (code, at (f x))

module _ {W : Type 0} (gst : Gst W) where
  open gst use {Element}

  abbrev pub pipe_name : Pipeline Element → Text
  pipe_name p = p.name

  -- The pipeline of a name.
  abbrev pub pipe : Text → Store Element W → Option (Pipeline Element)
  pipe n s = find_child pipe_name s.pipelines n

  abbrev pub with_pipe :
      Text → (Pipeline Element → Pipeline Element) → Store Element W → Store Element W
  with_pipe n f s = record s {
    pipelines = record {
      nodes = change_node pipe_name f s.pipelines.nodes n;
      count = s.pipelines.count;
    };
  }

  abbrev pub its_state : Option (Pipeline Element) → Option (State Element)
  its_state none = none
  its_state (some p) = p.state

  abbrev pub state_of : Text → Store Element W → Option (State Element)
  state_of n s = its_state (pipe n s)

  -- The new record of a state, and the new world.
  abbrev pub with_state : Text → State Element × W → Store Element W → Store Element W
  with_state n (st, w) s =
      let s' = with_pipe n (λ p. record p { state = some st }) s in record s' { world = w }

  module _ (rest : Rest Element W) where
    -- gstd_list_reader_read_child
    abbrev pub read_child : Text → Option (Pipeline Element) → ReturnCode × Out (Place rest.Other)
    read_child n none = (no_resource, Object.null)
    read_child n (some p) = (eok, at (pipeline n))

    -- gstd_list_reader_read: "count" is a keyword.
    abbrev pub list_reader : Text → Store Element W → ReturnCode × Out (Place rest.Other)
    list_reader n s =
        if text_eq (codes "count") n
        then (eok, at (other rest.count_property))
        else read_child n (pipe n s)

    abbrev pub session_reader : Text → Store Element W → ReturnCode × Out (Place rest.Other)
    session_reader n s =
        if text_eq n (codes "pipelines")
        then (eok, at pipelines)
        else mapped other (rest.read_session n s.world)

    -- gstd_property_reader_read on a pipeline: its state is a resource if there is one.
    abbrev pub property_reader :
        Text → Text → W → Option (Pipeline Element) → ReturnCode × Out (Place rest.Other)
    property_reader p n w none = (null_argument, unset)
    property_reader p n w (some self) =
        if text_eq n (codes "state") && is_some self.state
        then (eok, at (state p))
        else mapped other (rest.read_pipeline self n w)

    -- gstd_object_read: each resource asks its reader, and a state has none but the one that refuses.
    unfoldable pub read :
        Place rest.Other
        → Option Text
        → Store Element W
        → (ReturnCode × Out (Place rest.Other)) × Store Element W
    read (other o) n s =
        let (r, w) = rest.read o n s.world in (mapped other r, record s { world = w })
    read (state p) n s = ((no_read, Object.null), s)
    read place none s = ((null_argument, unset), s)
    read session (some n) s = (session_reader n s, s)
    read pipelines (some n) s = (list_reader n s, s)
    read (pipeline p) (some n) s = (property_reader p n s.world (pipe p s), s)

    -- gstd_list_create on the pipelines; no other of these resources has a creator.
    unfoldable pub create :
        Place rest.Other
        → Option Text
        → Option Text
        → Store Element W
        → ReturnCode × Store Element W
    unfolding NodeList.create
    create pipelines n d s =
        let ((code, l), w) =
          NodeList.create pipe_name (creator gst) (dispose gst) s.pipelines n d s.world in
        (code, record { pipelines = l; world = w })
    create (other o) n d s =
        let (code, w) = rest.create o n d s.world in (code, record s { world = w })
    create place n d s = (no_create, s)

    abbrev pub updated :
        Text → (ReturnCode × State Element) × W → Store Element W → ReturnCode × Store Element W
    updated p ((code, st), w) s = (code, with_state p (st, w) s)

    abbrev pub update_state :
        Text → Text → Store Element W → Option (State Element) → ReturnCode × Store Element W
    update_state p v s none = (null_argument, s)
    update_state p v s (some st) = updated p (State.update gst st v s.world) s

    -- gstd_state_update on a state; no other of these resources has an updater.
    unfoldable pub update : Place rest.Other → Text → Store Element W → ReturnCode × Store Element W
    unfolding State.update
    update (state p) v s = update_state p v s (state_of p s)
    update (other o) v s = let (code, w) = rest.update o v s.world in (code, record s { world = w })
    update place v s = (no_update, s)

    -- gstd_list_delete on the pipelines; gstd_object_delete_default returns EOK for all others, since
    -- it does not look at what their deleter returns.
    unfoldable pub delete : Place rest.Other → Text → Store Element W → ReturnCode × Store Element W
    unfolding NodeList.delete
    delete pipelines n s =
        let ((code, l), w) = NodeList.delete pipe_name (deleter gst) s.pipelines n s.world in
        (code, record { pipelines = l; world = w })
    delete (other o) n s = let (code, w) = rest.delete o n s.world in (code, record s { world = w })
    delete place n s = (eok, s)

    abbrev pub print_pipeline : W → Option (Pipeline Element) → ReturnCode × Option Text
    print_pipeline w none = (null_argument, none)
    print_pipeline w (some self) = (eok, some (rest.print_pipeline self w))

    abbrev pub print_state :
        Text
        → Store Element W
        → Option (State Element)
        → (ReturnCode × Option Text) × Store Element W
    print_state p s none = ((null_argument, none), s)
    print_state p s (some st) =
        let (st', w) = State.refresh gst st s.world in
        ((eok, some (rest.print_state st')), with_state p (st', w) s)

    -- The to_string of each class. A state is refreshed before it is printed.
    unfoldable pub to_string :
        Place rest.Other → Store Element W → (ReturnCode × Option Text) × Store Element W
    to_string session s = ((eok, some (rest.print_session s.pipelines s.world)), s)
    to_string pipelines s = ((eok, some (rest.print_list s.pipelines)), s)
    to_string (pipeline p) s = (print_pipeline s.world (pipe p s), s)
    to_string (state p) s = print_state p s (state_of p s)
    to_string (other o) s = let (r, w) = rest.print o s.world in (r, record s { world = w })

    abbrev pub found : Text → Option (Pipeline Element) → Option (Place rest.Other)
    found n none = none
    found n (some p) = some (pipeline n)

    -- gstd_list_find_child
    abbrev pub find_in_list : Place rest.Other → Text → Store Element W → Option (Place rest.Other)
    find_in_list pipelines n s = found n (pipe n s)
    find_in_list place n s = none

    abbrev pub description_in : Option (Pipeline Element) → Option Text
    description_in none = none
    description_in (some p) = some p.description

    -- The property "description".
    abbrev pub description_of : Place rest.Other → Store Element W → Option Text
    description_of (pipeline p) s = description_in (pipe p s)
    description_of place s = none

    abbrev pub clients_of_pipeline : Option (Pipeline Element) → ℕ
    clients_of_pipeline none = 0
    clients_of_pipeline (some p) = p.refcount

    abbrev pub clients_of_state : Option (State Element) → ℕ
    clients_of_state none = 0
    clients_of_state (some st) = st.refcount

    -- The property "refcount".
    abbrev pub refcount_at : Place rest.Other → Store Element W → ℕ
    refcount_at (pipeline p) s = clients_of_pipeline (pipe p s)
    refcount_at (state p) s = clients_of_state (state_of p s)
    refcount_at place s = 0

    abbrev pub on_state : (State Element → State Element) → Pipeline Element → Pipeline Element
    on_state f self = record self { state = Option.map f self.state }

    -- gstd_pipeline_increment_refcount and gstd_state_increment_refcount
    abbrev pub increment_at : Place rest.Other → Store Element W → ReturnCode × Store Element W
    increment_at (pipeline p) s = (eok, with_pipe p Pipeline.increment_refcount s)
    increment_at (state p) s = (eok, with_pipe p (on_state State.increment_refcount) s)
    increment_at place s = (null_argument, s)

    -- gstd_pipeline_decrement_refcount and gstd_state_decrement_refcount
    abbrev pub decrement_at : Place rest.Other → Store Element W → ReturnCode × Store Element W
    decrement_at (pipeline p) s = (eok, with_pipe p Pipeline.decrement_refcount s)
    decrement_at (state p) s = (eok, with_pipe p (on_state State.decrement_refcount) s)
    decrement_at place s = (null_argument, s)

    abbrev pub server : ObjectTree
    server = record {
      Node = Place rest.Other;
      Store = Store Element W;
      session = session;
      create = create;
      read = read;
      update = update;
      delete = delete;
      to_string = to_string;
      find_child = find_in_list;
      description = description_of;
      refcount = refcount_at;
      increment_refcount = increment_at;
      decrement_refcount = decrement_at;
    }
