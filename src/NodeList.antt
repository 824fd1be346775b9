-- ===== src/NodeList.antt =====
-- libgstd/gstd_list.c: a list of resources, with the number of them, in which a name stands once.
-- The resources are of any type with a name; what they own is a world, which making, deleting and
-- dropping a resource may change.
pub mod Laws
pub mod Operations
pub mod Appending
use gstd_1_x.Base.{
  zero, suc, ℕ, ◌+◌, ◌-◌, ◌%◌, ◌^◌, Text, Bool, true, false, List, [], ◌∷◌, ◌++◌, Option, none,
  some, length, text_eq, if◌then◌else◌,
}
use gstd_1_x.ReturnCode.{ReturnCode, eok, no_resource, bad_command, existing_resource}

-- GList *list and guint count
pub record NodeList (A : Type 0) : Type 0 where
  pub nodes : List A
  pub count : ℕ

-- The numbers of a guint.
abbrev pub guint_mod : ℕ
guint_mod = 2 ^ 32

-- A guint less one: below zero is the largest.
abbrev pub guint_decrement : ℕ → ℕ
guint_decrement zero = guint_mod - 1
guint_decrement (suc n) = n

-- gstd_list_init
abbrev pub empty : {A : Type 0} → NodeList A
empty = record { nodes = []; count = 0 }

module _ {A : Type 0} (name : A → Text) where
  -- g_list_find_custom with gstd_list_find_node: the first node of the name.
  unfoldable pub find_node : List A → Text → Option A
  find_node [] n = none
  find_node (x ∷ xs) n = if text_eq (name x) n then some x else find_node xs n

  -- g_list_delete_link at that node.
  unfoldable pub delete_link : List A → Text → List A
  delete_link [] n = []
  delete_link (x ∷ xs) n = if text_eq (name x) n then xs else x ∷ delete_link xs n

  -- What a method of the node of a name leaves in its place.
  unfoldable pub change_node : (A → A) → List A → Text → List A
  change_node f [] n = []
  change_node f (x ∷ xs) n = if text_eq (name x) n then f x ∷ xs else x ∷ change_node f xs n

  -- gstd_list_find_child
  unfoldable pub find_child : NodeList A → Text → Option A
  unfolding find_node
  find_child self n = find_node self.nodes n

  abbrev append_unless : NodeList A → A → Option A → Option (NodeList A)
  append_unless self child (some found) = none
  append_unless self child none =
      let nodes = self.nodes ++ child ∷ [] in
      some (record { nodes = nodes; count = length nodes % guint_mod })

  -- gstd_list_append_child; no list stands for FALSE, and the list is as it was.
  unfoldable pub append_child : NodeList A → A → Option (NodeList A)
  unfolding find_node
  append_child self child = append_unless self child (find_node self.nodes (name child))

  -- The same where the caller does not look at what it returns.
  abbrev pub or_kept : NodeList A → Option (NodeList A) → NodeList A
  or_kept self none = self
  or_kept self (some l) = l

  abbrev pub append_or_keep : NodeList A → A → NodeList A
  append_or_keep self child = or_kept self (append_child self child)

  module _ {W : Type 0} where
    -- Unreferencing a new resource that has no other owner disposes of it.
    abbrev pub drop_out : (A → W → W) → Option A → W → W
    drop_out dispose none w = w
    drop_out dispose (some x) w = dispose x w

    abbrev pub appended :
        (A → W → W) → NodeList A → A → W → Option (NodeList A) → (ReturnCode × NodeList A) × W
    appended dispose self x w none = ((existing_resource, self), dispose x w)
    appended dispose self x w (some self') = ((eok, self'), w)

    -- What gstd_list_create does with what the creator returns.
    abbrev pub created :
        (A → W → W) → NodeList A → (ReturnCode × Option A) × W → (ReturnCode × NodeList A) × W
    created dispose self ((eok, none), w) = ((bad_command, self), w)
    created dispose self ((eok, some x), w) = appended dispose self x w (append_child self x)
    created dispose self ((code, out), w) = ((code, self), drop_out dispose out w)

    -- gstd_list_create
    unfoldable pub create :
        (creator : Option Text → Option Text → W → (ReturnCode × Option A) × W)
        → (dispose : A → W → W) → NodeList A
        → Option Text
        → Option Text
        → W
        → (ReturnCode × NodeList A) × W
    create creator dispose self n description w = created dispose self (creator n description w)

    -- What gstd_list_delete does with what the deleter returns.
    abbrev pub deleted : NodeList A → Text → ReturnCode × W → (ReturnCode × NodeList A) × W
    deleted self n (eok, w) =
        let count = (self.count + guint_mod - 1) % guint_mod in
        ((eok, record { nodes = delete_link self.nodes n; count = count }), w)
    deleted self n (code, w) = ((code, self), w)

    abbrev pub delete_found :
        (A → W → ReturnCode × W) → NodeList A → Text → W → Option A → (ReturnCode × NodeList A) × W
    delete_found deleter self n w none = ((no_resource, self), w)
    delete_found deleter self n w (some x) = deleted self n (deleter x w)

    -- gstd_list_delete
    unfoldable pub delete :
        (A → W → ReturnCode × W) → NodeList A → Text → W → (ReturnCode × NodeList A) × W
    unfolding find_node
    delete deleter self n w = delete_found deleter self n w (find_node self.nodes n)
