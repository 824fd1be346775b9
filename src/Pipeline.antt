-- ===== src/Pipeline.antt =====
-- libgstd/gstd_pipeline.c, gstd_pipeline_creator.c and gstd_pipeline_deleter.c: a pipeline, how it is
-- built from its description, and how it is deleted.
pub mod Laws
pub mod Elements
pub mod Listed
use gstd_1_x.Base.{
  ℕ, zero, suc, ◌+◌, ◌-◌, ◌%◌, Text, codes, Bool, true, false, List, [], ◌∷◌, Option, none, some,
  ltb, if◌then◌else◌, ◌^◌,
}
use gstd_1_x.ReturnCode.{
  ReturnCode, eok, null_argument, bad_description, no_pipeline, bad_value, missing_argument,
  missing_name,
}
use gstd_1_x.NodeList
use gstd_1_x.NodeList.{NodeList, append_child, guint_mod, guint_decrement}
use gstd_1_x.Gst.{Gst, IteratorResult, ok, resync, error, finished}
use gstd_1_x.State.{State, new_state, update}

-- struct _GstdPipeline. An element of the pipeline is known by its name. Of the event handler and
-- the bus it matters here whether they are there.
pub record Pipeline (Element : Type 0) : Type 0 where
  pub name : Text
  pub description : Text
  pub pipeline : Option Element
  pub state : Option (State Element)
  pub elements : Option (NodeList Text)
  pub event_handler : Bool
  pub pipeline_bus : Bool
  pub refcount : ℕ

abbrev pub own_name : Text → Text
own_name n = n

-- GSTD_MAX_ITERATOR_RESYNC
abbrev pub max_iterator_resync : ℕ
max_iterator_resync = 10

-- gstd_list_append_child on the elements; an element whose name is there already is left out.
abbrev kept : NodeList Text → Option (NodeList Text) → NodeList Text
kept elements none = elements
kept elements (some elements') = elements'

-- The loop of gstd_pipeline_fill_elements over what the iterator returns. When the iterator asks
-- for a resynchronisation more than ten times without an element in between, the loop gives up.
unfoldable pub fill : ℕ → NodeList Text → List IteratorResult → NodeList Text
unfolding append_child
fill count elements [] = elements
fill count elements (ok n ∷ rest) = fill 0 (kept elements (append_child own_name elements n)) rest
fill count elements (resync ∷ rest) =
    let more = fill (count + 1) elements rest in
    if ltb max_iterator_resync (count + 1) then elements else more
fill count elements (error ∷ rest) = elements
fill count elements (finished ∷ rest) = elements

module _ {W : Type 0} (gst : Gst W) where
  open gst use {Element}

  -- g_object_new (GSTD_TYPE_PIPELINE, ...) with gstd_pipeline_init.
  abbrev pub new_pipeline : Text → Text → Pipeline Element
  new_pipeline name description = record {
    name = name;
    description = description;
    pipeline = none;
    state = none;
    elements = some NodeList.empty;
    event_handler = false;
    pipeline_bus = false;
    refcount = 0;
  }

  -- gstd_pipeline_fill_elements, on a pipeline whose list of elements is there.
  abbrev filled :
      Pipeline Element
      → Option (NodeList Text)
      → Option (List IteratorResult)
      → ReturnCode × Pipeline Element
  filled self elements none = (no_pipeline, self)
  filled self none (some results) = (eok, self)
  filled self (some elements) (some results) =
      (eok, record self { elements = some (fill 0 elements results) })

  -- A description of a single element has no pipeline of its own.
  abbrev in_pipeline : Element → W → Element × W
  in_pipeline e w = if gst.is_pipeline e then (e, w) else gst.new_pipeline e w

  -- The name that gst_object_set_name is called with: that of the object, or FB_NAME at index 0.
  abbrev pipename : Text → Text
  pipename [] = codes "pipeline0"
  pipename (c ∷ name) = c ∷ name

  abbrev named : Pipeline Element → Element × W → (ReturnCode × Pipeline Element) × W
  named self (e, w) =
      let w' = gst.set_name e (pipename self.name) w in
      let self' = record self { pipeline = some e; state = some (new_state e) } in
      (filled self' self.elements (gst.iterate_elements e w'), w')

  abbrev parsed : Pipeline Element → Option Element × W → (ReturnCode × Pipeline Element) × W
  parsed self (none, w) = ((bad_description, record self { pipeline = none }), w)
  parsed self (some e, w) = named self (in_pipeline e w)

  -- gstd_pipeline_create
  unfoldable pub create : Pipeline Element → W → (ReturnCode × Pipeline Element) × W
  unfolding fill
  create self w = parsed self (gst.parse_launch self.description w)

  abbrev bus_of : Option Element → W → Bool
  bus_of none w = false
  bus_of (some e) w = gst.has_bus e w

  -- A new event handler is never NULL, so that of the ways out of gstd_pipeline_build only those
  -- without a bus are left.
  abbrev handled : Pipeline Element → Bool → ReturnCode × Pipeline Element
  handled self true = (eok, record self { event_handler = true; pipeline_bus = true })
  handled self false =
      (bad_value, record self { event_handler = false; elements = none; pipeline = none })

  abbrev built : (ReturnCode × Pipeline Element) × W → (ReturnCode × Pipeline Element) × W
  built ((eok, self), w) = (handled self (bus_of self.pipeline w), w)
  built ((code, self), w) = ((code, self), w)

  -- gstd_pipeline_build
  unfoldable pub build : Pipeline Element → W → (ReturnCode × Pipeline Element) × W
  unfolding create
  build self w = built (create self w)

  -- gstd_pipeline_creator_create
  unfoldable pub creator :
      Option Text → Option Text → W → (ReturnCode × Option (Pipeline Element)) × W
  unfolding build
  creator none description w = ((missing_name, none), w)
  creator (some name) none w = ((missing_argument, none), w)
  creator (some name) (some description) w =
      let ((code, self), w') = build (new_pipeline name description) w in ((code, some self), w')

  abbrev stop : Option (State Element) → W → W
  stop none w = w
  stop (some state) w = (update gst state (codes "NULL") w).1

  -- gstd_pipeline_dispose: the pipeline is stopped; what it owns is released with it.
  unfoldable pub dispose : Pipeline Element → W → W
  unfolding update
  dispose self w = stop self.state w

  abbrev stopped : Pipeline Element → (ReturnCode × State Element) × W → ReturnCode × W
  stopped self ((eok, state), w) = (eok, stop (some state) w)
  stopped self ((code, state), w) = (code, w)

  abbrev delete_stopped : Pipeline Element → Option (State Element) → W → ReturnCode × W
  delete_stopped self none w = (bad_value, w)
  delete_stopped self (some state) w = stopped self (update gst state (codes "NULL") w)

  -- gstd_pipeline_deleter_delete: the pipeline is stopped, and disposed of if that succeeds.
  unfoldable pub deleter : Pipeline Element → W → ReturnCode × W
  unfolding update
  deleter self w = delete_stopped self self.state w

module _ {Element : Type 0} where
  -- gstd_pipeline_increment_refcount
  unfoldable pub increment_refcount : Pipeline Element → Pipeline Element
  increment_refcount self = record self { refcount = (self.refcount + 1) % guint_mod }

  -- gstd_pipeline_decrement_refcount
  unfoldable pub decrement_refcount : Pipeline Element → Pipeline Element
  decrement_refcount self =
      if ltb 0 self.refcount then record self { refcount = guint_decrement self.refcount } else self
