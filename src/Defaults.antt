-- ===== src/Defaults.antt =====
-- The operations that a resource has if its class gives no others: the defaults of
-- libgstd/gstd_object.c, which ask a creator, a reader, an updater and a deleter (gstd_icreator.c,
-- gstd_ireader.c, gstd_iupdater.c and gstd_ideleter.c), and those that a new object has, which refuse
-- (gstd_no_creator.c, gstd_no_reader.c, gstd_no_updater.c and gstd_no_deleter.c).
pub mod Refusals
use gstd_1_x.Base.{Text, Option, none, some}
use gstd_1_x.ReturnCode.{
  ReturnCode, eok, null_argument, missing_initialization, no_create, no_read, no_update,
}
use gstd_1_x.Object
use gstd_1_x.Object.{Out, unset, at}

module _ (Child W : Type 0) where
  -- GstdICreator, GstdIReader, GstdIUpdater and GstdIDeleter on a resource. A deleter is handed NULL.
  abbrev pub Creator : Type 0
  Creator = Option Text → Option Text → W → (ReturnCode × Out Child) × W

  abbrev pub Reader : Type 0
  Reader = Option Text → W → (ReturnCode × Out Child) × W

abbrev pub Updater : Type 0 → Type 0
Updater W = Text → W → ReturnCode × W

abbrev pub Deleter : Type 0 → Type 0
Deleter W = W → ReturnCode × W

-- The fields of struct _GstdObject that the defaults ask; each may be NULL.
pub record Fields (Child W : Type 0) : Type 0 where
  pub creator : Option (Creator Child W)
  pub reader : Option (Reader Child W)
  pub updater : Option (Updater W)
  pub deleter : Option (Deleter W)

module _ {W : Type 0} where
  -- gstd_no_updater_update
  unfoldable pub no_updater : Updater W
  no_updater value w = (no_update, w)

  -- gstd_no_deleter_delete
  unfoldable pub no_deleter : Deleter W
  no_deleter w = (eok, w)

module _ {Child W : Type 0} where
  -- gstd_no_creator_create
  unfoldable pub no_creator : Creator Child W
  no_creator name description w = ((no_create, Object.null), w)

  -- gstd_no_reader_read
  unfoldable pub no_reader : Reader Child W
  no_reader name w = ((no_read, Object.null), w)

  -- gstd_object_init
  abbrev pub new_fields : Fields Child W
  new_fields = record {
    creator = some no_creator;
    reader = some no_reader;
    updater = some no_updater;
    deleter = some no_deleter;
  }

  -- gstd_object_set_creator, gstd_object_set_reader and gstd_object_set_updater take NULL;
  -- gstd_object_set_deleter does not.
  unfoldable pub set_creator : Option (Creator Child W) → Fields Child W → Fields Child W
  set_creator c self = record self { creator = c }

  unfoldable pub set_reader : Option (Reader Child W) → Fields Child W → Fields Child W
  set_reader r self = record self { reader = r }

  unfoldable pub set_updater : Option (Updater W) → Fields Child W → Fields Child W
  set_updater u self = record self { updater = u }

  unfoldable pub set_deleter : Option (Deleter W) → Fields Child W → Fields Child W
  set_deleter none self = self
  set_deleter (some d) self = record self { deleter = some d }

  -- What gstd_object_create_default does with what the creator has made: a pointer that it has not
  -- written is looked at, which is undefined, and is none here.
  abbrev pub dropped : (Child → W → W) → (ReturnCode × Out Child) × W → Option (ReturnCode × W)
  dropped unref ((code, unset), w) = none
  dropped unref ((code, Object.null), w) = some (code, w)
  dropped unref ((code, at child), w) = some (code, unref child w)

  -- gstd_object_create_default
  unfoldable pub create_default :
      (Child → W → W) → Fields Child W → Option Text → Option Text → W → Option (ReturnCode × W)
  create_default unref self name description w = elim self.creator [
    | none ↦ some (missing_initialization, w)
    | some create ↦ dropped unref (create name description w)
  ]

  -- gstd_object_read_default
  unfoldable pub read_default : Fields Child W → Option Text → W → (ReturnCode × Out Child) × W
  read_default self name w = elim self.reader [
    | none ↦ ((missing_initialization, unset), w)
    | some read ↦ read name w
  ]

  -- gstd_object_update_default, of a value that is not NULL.
  unfoldable pub update_default : Fields Child W → Text → W → ReturnCode × W
  update_default self value w = elim self.updater [
    | none ↦ (missing_initialization, w)
    | some update ↦ update value w
  ]

  -- gstd_object_delete_default, of a name that is not NULL; what the deleter returns is not looked at.
  unfoldable pub delete_default : Fields Child W → Text → W → ReturnCode × W
  delete_default self name w = elim self.deleter [
    | none ↦ (missing_initialization, w)
    | some delete ↦ (eok, (delete w).1)
  ]
