-- ===== src/Formatter/Documents.antt =====
-- JSON documents, the calls of a builder that describe one, and a reference builder: what calls in
-- any order come to, with the names and values only where JsonBuilder allows them.
use gstd_1_x.Base.{
  ◌≡◌, refl, sym, ap, ◌∙◌, Text, List, [], ◌∷◌, ◌++◌, append_assoc, append-nil, Option, none, some,
  Bool, ℤ,
}
use gstd_1_x.Formatter.{
  Call, begin_object, end_object, begin_array, end_array, set_member_name, add_string_value,
  add_null_value, add_boolean_value, add_int_value, add_double_value,
}

mutual
  pub data Json (Double : Type 0) : Type 0 where
    null : Json Double
    boolean : Bool → Json Double
    int : ℤ → Json Double
    double : Double → Json Double
    string : Option Text → Json Double
    array : Items Double → Json Double
    object : Members Double → Json Double

  pub data Items (Double : Type 0) : Type 0 where
    no_items : Items Double
    item : Json Double → Items Double → Items Double

  pub data Members (Double : Type 0) : Type 0 where
    no_members : Members Double
    member : Text → Json Double → Members Double → Members Double

-- An open array or object, with what it has so far; `in_member` waits for the value of a name.
pub data Frame (Double : Type 0) : Type 0 where
  in_array : Items Double → Frame Double
  in_object : Members Double → Frame Double
  in_member : Members Double → Text → Frame Double

-- What is open, the innermost first; or a finished root.
pub data Builder (Double : Type 0) : Type 0 where
  opened : List (Frame Double) → Builder Double
  finished : Json Double → Builder Double

module _ {Double : Type 0} where
  -- The calls that describe a document, its items or its members.
  unfoldable mutual
    pub calls : Json Double → List (Call Double)
    calls null = add_null_value ∷ []
    calls (boolean b) = add_boolean_value b ∷ []
    calls (int n) = add_int_value n ∷ []
    calls (double d) = add_double_value d ∷ []
    calls (string s) = add_string_value s ∷ []
    calls (array xs) = begin_array ∷ item_calls xs ++ end_array ∷ []
    calls (object ms) = begin_object ∷ member_calls ms ++ end_object ∷ []

    pub item_calls : Items Double → List (Call Double)
    item_calls no_items = []
    item_calls (item x xs) = calls x ++ item_calls xs

    pub member_calls : Members Double → List (Call Double)
    member_calls no_members = []
    member_calls (member k v ms) = set_member_name k ∷ calls v ++ member_calls ms

  abbrev pub add_item : Items Double → Json Double → Items Double
  add_item no_items x = item x no_items
  add_item (item y ys) x = item y (add_item ys x)

  abbrev pub add_member : Members Double → Text → Json Double → Members Double
  add_member no_members k v = member k v no_members
  add_member (member j w ms) k v = member j w (add_member ms k v)

  -- A value is a root, an item, or the value of the name that waits.
  abbrev pub add_value : Json Double → List (Frame Double) → Option (Builder Double)
  add_value x [] = some (finished x)
  add_value x (in_array xs ∷ fs) = some (opened (in_array (add_item xs x) ∷ fs))
  add_value x (in_object ms ∷ fs) = none
  add_value x (in_member ms k ∷ fs) = some (opened (in_object (add_member ms k x) ∷ fs))

  abbrev pub close_object : List (Frame Double) → Option (Builder Double)
  close_object (in_object ms ∷ fs) = add_value (object ms) fs
  close_object fs = none

  abbrev pub close_array : List (Frame Double) → Option (Builder Double)
  close_array (in_array xs ∷ fs) = add_value (array xs) fs
  close_array fs = none

  abbrev pub name_member : Text → List (Frame Double) → Option (Builder Double)
  name_member k (in_object ms ∷ fs) = some (opened (in_member ms k ∷ fs))
  name_member k fs = none

  -- A new array or object has to stand where a value may.
  abbrev pub open_frame : Frame Double → List (Frame Double) → Option (Builder Double)
  open_frame f (in_object ms ∷ fs) = none
  open_frame f fs = some (opened (f ∷ fs))

  abbrev pub step : Call Double → List (Frame Double) → Option (Builder Double)
  step begin_object = open_frame (in_object no_members)
  step end_object = close_object
  step begin_array = open_frame (in_array no_items)
  step end_array = close_array
  step (set_member_name k) = name_member k
  step (add_string_value s) = add_value (string s)
  step add_null_value = add_value null
  step (add_boolean_value b) = add_value (boolean b)
  step (add_int_value n) = add_value (int n)
  step (add_double_value d) = add_value (double d)

  unfoldable pub build_on : List (Call Double) → Builder Double → Option (Json Double)
  build_on [] (opened fs) = none
  build_on [] (finished x) = some x
  build_on (c ∷ cs) (opened fs) = elim (step c fs) [ none ↦ none | some b ↦ build_on cs b ]
  build_on (c ∷ cs) (finished x) = none

  -- The document that calls of a new builder come to, if it takes them all and its root is finished.
  unfoldable pub build : List (Call Double) → Option (Json Double)
  build cs = build_on cs (opened [])

  abbrev items_append : Items Double → Items Double → Items Double
  items_append xs no_items = xs
  items_append xs (item y ys) = items_append (add_item xs y) ys

  abbrev members_append : Members Double → Members Double → Members Double
  members_append ms no_members = ms
  members_append ms (member k v ns) = members_append (add_member ms k v) ns

  items_append-item :
      (x : Json Double) (xs ys : Items Double)
      → items_append (item x xs) ys ≡ item x (items_append xs ys)
  items_append-item x xs no_items = refl
  items_append-item x xs (item y ys) = items_append-item x (add_item xs y) ys

  items_append-no_items : (ys : Items Double) → items_append no_items ys ≡ ys
  items_append-no_items no_items = refl
  items_append-no_items (item y ys) = rw (items_append-item y no_items ys, items_append-no_items ys)

  members_append-member :
      (k : Text) (v : Json Double) (ms ns : Members Double)
      → members_append (member k v ms) ns ≡ member k v (members_append ms ns)
  members_append-member k v ms no_members = refl
  members_append-member k v ms (member j w ns) = members_append-member k v (add_member ms j w) ns

  members_append-no_members : (ns : Members Double) → members_append no_members ns ≡ ns
  members_append-no_members no_members = refl
  members_append-no_members (member k v ns) =
      rw (members_append-member k v no_members ns, members_append-no_members ns)

  -- A place where a value may stand.
  abbrev Ready : List (Frame Double) → Type 0
  Ready [] = Unit
  Ready (in_array xs ∷ fs) = Unit
  Ready (in_object ms ∷ fs) = ⊥
  Ready (in_member ms k ∷ fs) = Unit

  -- What the rest of the calls come to, once a value has been taken.
  abbrev after : List (Call Double) → Option (Builder Double) → Option (Json Double)
  after cs b = elim b [ none ↦ none | some b ↦ build_on cs b ]

  abbrev BuildsValue : Json Double → Type 0
  BuildsValue x =
      (cs : List (Call Double)) (fs : List (Frame Double))
      → Ready fs
      → build_on (calls x ++ cs) (opened fs) ≡ after cs (add_value x fs)

  abbrev BuildsItems : Items Double → Type 0
  BuildsItems ys =
      (cs : List (Call Double)) (xs : Items Double) (fs : List (Frame Double))
      → build_on (item_calls ys ++ cs) (opened (in_array xs ∷ fs))
        ≡ build_on cs (opened (in_array (items_append xs ys) ∷ fs))

  abbrev BuildsMembers : Members Double → Type 0
  BuildsMembers ns =
      (cs : List (Call Double)) (ms : Members Double) (fs : List (Frame Double))
      → build_on (member_calls ns ++ cs) (opened (in_object ms ∷ fs))
        ≡ build_on cs (opened (in_object (members_append ms ns) ∷ fs))

  after-open_frame :
      (f : Frame Double) (cs : List (Call Double)) (fs : List (Frame Double))
      → Ready fs
      → after cs (open_frame f fs) ≡ build_on cs (opened (f ∷ fs))
  after-open_frame f cs [] h = refl
  after-open_frame f cs (in_array xs ∷ fs) h = refl
  after-open_frame f cs (in_object ms ∷ fs) h = absurd h
  after-open_frame f cs (in_member ms k ∷ fs) h = refl

  calls-Builds : (x : Json Double) → BuildsValue x
  unfolding calls build_on
  calls-Builds x = elim x as BuildsValue BuildsItems BuildsMembers [
    | array (xs → ih) ↦ λ cs fs h.
        after-open_frame _ _ fs h ∙ rw (append_assoc, ih (end_array ∷ cs), items_append-no_items xs)
    | object (ms → ih) ↦ λ cs fs h.
        after-open_frame _ _ fs h
        ∙ rw (append_assoc, ih (end_object ∷ cs), members_append-no_members ms)
    | no_items ↦ λ cs xs fs. refl
    | item (y → ih) (ys → ihs) ↦
        λ cs xs fs. rw append_assoc (ih _ (in_array xs ∷ fs) tt ∙ ihs cs (add_item xs y) fs)
    | no_members ↦ λ cs ms fs. refl
    | member k (v → ih) (ns → ihs) ↦
        λ cs ms fs. rw append_assoc (ih _ (in_member ms k ∷ fs) tt ∙ ihs cs (add_member ms k v) fs)
    | _ ↦ λ cs fs h. refl
  ]

  -- The calls that describe a document are taken by a builder, and come to that document.
  pub build-calls : (x : Json Double) → build (calls x) ≡ some x
  unfolding build build_on
  build-calls x =
      ap (λ cs. build_on cs (opened [])) (sym (append-nil (calls x))) ∙ calls-Builds x [] [] tt
