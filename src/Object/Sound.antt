-- ===== src/Object/Sound.antt =====
-- What a class of resources owes to the parser, and what its operations then keep.
use gstd_1_x.Base.{Text, ◌≡◌, ◌≢◌, refl, Option, none, some}
use gstd_1_x.ReturnCode.{ReturnCode, eok}
use gstd_1_x.Action.Safe.{Safe, Safe-pure}
use gstd_1_x.Object.{
  ObjectTree, unset, Context, call, set_response, get_store, object_create, object_read,
  object_update, object_delete, object_to_string, written,
}

-- Every operation keeps the invariant `P` of the resources, and a pointer that the parser follows
-- has been written: after a successful read by name, and when a resource that has just been created
-- is read back.
pub record IsSound (t : ObjectTree) (P : t.Store → Type 0) : Type 0 where
  pub create_keeps :
      (n : t.Node) (name description : Option Text) (s : t.Store)
      → P s
      → P (t.create n name description s).1
  pub read_keeps : (n : t.Node) (name : Option Text) (s : t.Store) → P s → P (t.read n name s).1
  pub update_keeps : (n : t.Node) (value : Text) (s : t.Store) → P s → P (t.update n value s).1
  pub delete_keeps : (n : t.Node) (name : Text) (s : t.Store) → P s → P (t.delete n name s).1
  pub to_string_keeps : (n : t.Node) (s : t.Store) → P s → P (t.to_string n s).1
  pub increment_keeps : (n : t.Node) (s : t.Store) → P s → P (t.increment_refcount n s).1
  pub decrement_keeps : (n : t.Node) (s : t.Store) → P s → P (t.decrement_refcount n s).1
  pub read_defined :
      (n : t.Node) (name : Text) (s : t.Store) → P s → (t.read n (some name) s).0 ≢ (eok, unset)
  pub created_defined :
      (n : t.Node) (name description : Option Text) (s : t.Store)
      → P s
      → (t.create n name description s).0 ≡ eok
      → (t.read n name (t.create n name description s).1).0.1 ≢ unset

-- The invariant, of the context of a command.
abbrev pub OfStore : {S : Type 0} → (S → Type 0) → Context S → Type 0
OfStore P c = P c.store

module _ {S : Type 0} {P : S → Type 0} where
  pub Safe-call :
      {A : Type 0} (f : S → A × S) → ((s : S) → P s → P (f s).1) → Safe (OfStore P) (call f)
  Safe-call f k = record { keeps = λ c h. k c.store h; defined = λ c h e. cc }

module _ (t : ObjectTree) (P : t.Store → Type 0) (sound : IsSound t P) where
  open t use {Node, Store}

  pub Safe-set_response : (r : Option Text) → Safe (OfStore P) (set_response {S = Store} r)
  Safe-set_response r = record { keeps = λ c h. h; defined = λ c h e. cc }

  pub Safe-get_store : Safe (OfStore P) (get_store {S = Store})
  Safe-get_store = record { keeps = λ c h. h; defined = λ c h e. cc }

  pub create-Safe :
      (n : Option Node) (name description : Option Text)
      → Safe (OfStore P) (object_create t n name description)
  unfolding object_create
  create-Safe none name d = Safe-pure _
  create-Safe (some n) name d = Safe-call (t.create n name d) (sound.create_keeps n name d)

  pub read-Safe : (n : Option Node) (name : Option Text) → Safe (OfStore P) (object_read t n name)
  unfolding object_read
  read-Safe none name = Safe-pure _
  read-Safe (some n) name = Safe-call (t.read n name) (sound.read_keeps n name)

  pub update-Safe :
      (n : Option Node) (value : Option Text) → Safe (OfStore P) (object_update t n value)
  unfolding object_update
  update-Safe none v = Safe-pure _
  update-Safe (some n) none = Safe-pure _
  update-Safe (some n) (some v) = Safe-call (t.update n v) (sound.update_keeps n v)

  pub delete-Safe :
      (n : Option Node) (name : Option Text) → Safe (OfStore P) (object_delete t n name)
  unfolding object_delete
  delete-Safe none v = Safe-pure _
  delete-Safe (some n) none = Safe-pure _
  delete-Safe (some n) (some v) = Safe-call (t.delete n v) (sound.delete_keeps n v)

  -- What is written goes to the response, beside the store.
  written-store :
      (w : (ReturnCode × Option Text) × Store) (c : Context Store) → (written t w c).1.store ≡ w.1
  written-store ((code, none), s) c = refl
  written-store ((code, some r), s) c = refl

  pub to_string-Safe : (n : Option Node) → Safe (OfStore P) (object_to_string t n)
  unfolding object_to_string
  to_string-Safe none = Safe-pure _
  to_string-Safe (some n) = record {
    keeps = λ c h. rw (written-store (t.to_string n c.store) c) (sound.to_string_keeps n c.store h);
    defined = λ c h e. cc;
  }
