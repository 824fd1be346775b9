-- ===== src/Object.antt =====
-- libgstd/gstd_object.c and gstd_object.h: the operations that every resource has, and the tree of
-- resources as the parser sees it. A class of resources fills the operations of its virtual table;
-- the parser calls them through the wrappers of gstd_object.c, which are below.
pub mod Sound
use gstd_1_x.Base.{ℕ, Text, Option, none, some}
use gstd_1_x.ReturnCode.{ReturnCode, null_argument}
use gstd_1_x.Action.{Action, done}

-- An output argument `GstdObject **`: not written, written NULL, or pointing to a resource.
pub data Out (A : Type 0) : Type 0 where
  unset : Out A
  null : Out A
  at : A → Out A

-- GstdObjectClass, with the state that the operations change made explicit. A pointer to a string
-- that may be NULL is an option. The last five are what gstd_parser.c calls of lists, pipelines and
-- states besides the virtual table.
pub record ObjectTree : Type 1 where
  pub Node : Type 0
  pub Store : Type 0
  pub session : Node
  pub create : Node → Option Text → Option Text → Store → ReturnCode × Store
  pub read : Node → Option Text → Store → (ReturnCode × Out Node) × Store
  pub update : Node → Text → Store → ReturnCode × Store
  pub delete : Node → Text → Store → ReturnCode × Store
  pub to_string : Node → Store → (ReturnCode × Option Text) × Store
  pub find_child : Node → Text → Store → Option Node
  pub description : Node → Store → Option Text
  pub refcount : Node → Store → ℕ
  pub increment_refcount : Node → Store → ReturnCode × Store
  pub decrement_refcount : Node → Store → ReturnCode × Store

-- What a command works on: the resources, and `*response`.
pub record Context (S : Type 0) : Type 0 where
  pub store : S
  pub response : Option Text

abbrev pub Command : Type 0 → Type 0 → Type 0
Command S A = Action (Context S) A

module _ {S : Type 0} where
  -- Runs an operation of a class, and hands over what it returns.
  abbrev pub call : {A : Type 0} → (S → A × S) → Command S A
  call f c = (done (f c.store).0, record c { store = (f c.store).1 })

  -- *response = text;
  abbrev pub set_response : Option Text → Command S (Unit {0})
  set_response r c = (done tt, record c { response = r })

  abbrev pub get_store : Command S S
  get_store c = (done c.store, c)

module _ (t : ObjectTree) where
  open t use {Node, Store, create, read, update, delete, to_string}

  -- gstd_object_create and its siblings: a NULL object is refused, any other is dispatched on.
  unfoldable pub object_create : Option Node → Option Text → Option Text → Command Store ReturnCode
  object_create none name description c = (done null_argument, c)
  object_create (some n) name description c = call (create n name description) c

  unfoldable pub object_read : Option Node → Option Text → Command Store (ReturnCode × Out Node)
  object_read none name c = (done (null_argument, unset), c)
  object_read (some n) name c = call (read n name) c

  unfoldable pub object_update : Option Node → Option Text → Command Store ReturnCode
  object_update none value c = (done null_argument, c)
  object_update (some n) none c = (done null_argument, c)
  object_update (some n) (some value) c = call (update n value) c

  unfoldable pub object_delete : Option Node → Option Text → Command Store ReturnCode
  object_delete none name c = (done null_argument, c)
  object_delete (some n) none c = (done null_argument, c)
  object_delete (some n) (some name) c = call (delete n name) c

  -- What is written to `*outstring` stays there whatever the code.
  abbrev written : (ReturnCode × Option Text) × Store → Context Store → ReturnCode × Context Store
  written ((code, none), s) c = (code, record c { store = s })
  written ((code, some r), s) c = (code, record { store = s; response = some r })

  unfoldable pub object_to_string : Option Node → Command Store ReturnCode
  object_to_string none c = (done null_argument, c)
  object_to_string (some n) c = let w = written (to_string n c.store) c in (done w.0, w.1)
