-- ===== src/Readers.antt =====
-- The readers that hand out what stands below a resource: gstd_property_reader.c, gstd_msg_reader.c and
-- the choice of gstd_signal_reader.c, all in libgstd. The bus is that of gstd_pipeline_bus.c.
use gstd_1_x.Base.{
  ℕ, ◌+◌, ◌-◌, ◌/◌, Text, codes, Bool, true, false, ◌||◌, not, ◌==◌, Option, none, some, ℤ, pos,
  negsuc, if◌then◌else◌,
}
use gstd_1_x.ReturnCode.{ReturnCode, eok, no_resource, no_read}
use gstd_1_x.GLib.{GLib}
use gstd_1_x.Object
use gstd_1_x.Object.{Out, unset, at}
use gstd_1_x.Printing.{ParamSpec, Property, basic, is_readable}
use gstd_1_x.Printing.Messages.{Class, Message, factory_make}

-- What a reader asks of GObject about a resource. `GSTD_PARAM_IS_READ` looks at a flag of the program.
pub record Resources (Object Resource W : Type 0) : Type 0 where
  pub find_property : Object → Text → Option ParamSpec
  pub is_read : ParamSpec → Bool
  -- Whether the value of the parameter is a GstdObject, in gstd_property_reader_is_gstd.
  pub is_gstd : Object → ParamSpec → W → Bool
  -- g_object_get of a parameter whose value is one.
  pub get_resource : Object → Text → W → Resource
  -- A new GstdProperty of an object.
  pub of_property : Property Object → Resource

module _ {Object Resource W : Type 0} (g : GLib) (calls : Resources Object Resource W) where
  open calls use {find_property, is_read, is_gstd, get_resource, of_property}

  -- gstd_property_mask_type: the class that the type would choose is overwritten by the general one.
  unfoldable pub mask_type : Object → ParamSpec → Property Object
  mask_type object pspec = record {
    class = basic;
    name = pspec.name;
    target = object;
    pspec = none;
  }

  abbrev pub read_found : Object → Text → Option ParamSpec → W → ReturnCode × Out Resource
  read_found object name none w = (no_resource, unset)
  read_found object name (some pspec) w =
      if not (is_read pspec) || not (is_readable pspec)
      then (no_read, unset)
      else if is_gstd object pspec w
      then (eok, at (get_resource object name w))
      else (eok, at (of_property (mask_type object pspec)))

  -- gstd_property_reader_read
  unfoldable pub property_reader : Object → Text → W → ReturnCode × Out Resource
  property_reader object name w = read_found object name (find_property object name) w

-- A reader on a resource that is known.
abbrev pub Read : Type 0 → Type 0 → Type 0
Read Resource W = Text → W → (ReturnCode × Out Resource) × W

module _ {Resource W : Type 0} where
  -- What a derived reader hands out: its variable is NULL before, and is stored on success only.
  abbrev pub stored : (ReturnCode × Out Resource) × W → (ReturnCode × Out Resource) × W
  stored ((eok, unset), w) = ((eok, Object.null), w)
  stored ((eok, out), w) = ((eok, out), w)
  stored ((code, out), w) = ((code, unset), w)

  -- gstd_msg_reader_read, over the reading of a message and the reader of properties.
  unfoldable pub msg_reader :
      GLib → (W → (ReturnCode × Out Resource) × W) → Read Resource W → Read Resource W
  msg_reader g message parent name w =
      stored (if g.strcasecmp (codes "message") (some name) then message w else parent name w)

  -- gstd_signal_reader_read, over the waiting for a callback, its end, and the reader of properties.
  unfoldable pub signal_reader :
      GLib
      → (W → (ReturnCode × Out Resource) × W)
      → (W → ReturnCode × W)
      → Read Resource W
      → Read Resource W
  signal_reader g callback disconnect parent name w = stored (
      if g.strcasecmp (codes "callback") (some name)
      then callback w
      else if g.strcasecmp (codes "disconnect") (some name)
      then (let (code, w') = disconnect w in ((code, Object.null), w'))
      else parent name w)

-- struct _GstdPipelineBus, with the types of messages as their flags.
pub record Bus (GstBus : Type 0) : Type 0 where
  pub bus : GstBus
  pub timeout : ℤ
  pub types : ℕ

-- gst_bus_set_flushing, g_usleep, and gst_bus_timed_pop_filtered, which may have no message.
pub record BusCalls (GstBus Double W : Type 0) : Type 0 where
  pub set_flushing : GstBus → Bool → W → W
  pub usleep : ℤ → W → W
  pub timed_pop_filtered : GstBus → ℤ → ℕ → W → Option (Message Double) × W

-- GST_TIME_AS_USECONDS, a division of C: it cuts towards 0.
abbrev pub as_useconds : ℤ → ℤ
as_useconds (pos n) = pos (n / 1000)
as_useconds (negsuc n) = let cut = (n + 1) / 1000 in if cut == 0 then pos 0 else negsuc (cut - 1)

module _ {GstBus Double W : Type 0} (calls : BusCalls GstBus Double W) where
  open calls use {set_flushing, usleep, timed_pop_filtered}

  -- The class of the resource that the factory makes, with its message; NULL if there is no message.
  abbrev pub wrapped : Option (Message Double) → Out (Class × Message Double)
  wrapped none = Object.null
  wrapped (some msg) = at (factory_make msg.type, msg)

  abbrev pub popped : Option (Message Double) × W → (ReturnCode × Out (Class × Message Double)) × W
  popped (msg, w) = ((eok, wrapped msg), w)

  -- gstd_msg_reader_read_message: no type at all is a request to flush the bus for the time.
  unfoldable pub read_message : Bus GstBus → W → (ReturnCode × Out (Class × Message Double)) × W
  read_message self w =
      if self.types == 0
      then popped (
        none,
        set_flushing self.bus false
            (usleep (as_useconds self.timeout) (set_flushing self.bus true w)),
      )
      else popped (timed_pop_filtered self.bus self.timeout self.types w)
