-- ===== src/Updates/Outcomes.antt =====
-- What an update of a property comes to, from gstd_property.c and the files of its subclasses.
use gstd_1_x.Base.{
  ◌≡◌, ◌≢◌, ◌⊎◌, ◌∙◌, sym, ap, ◌||◌, if◌then◌else◌, true, map, to_lower, codes, space, text_eq,
  text_eq_iff, inl, inr, refl, Text, Bool, false, ◌&&◌, Bool-cases, Option, none, some, ℤ, pos,
  is_zero,
}
use gstd_1_x.ReturnCode.{eok}
use gstd_1_x.GLib.{GLib}
use gstd_1_x.Formatter.{as_int64}
use gstd_1_x.Printing.{
  ParamSpec, PropertyClass, Property, basic, boolean, int, string, enum, flags, array,
}
use gstd_1_x.Updates.{
  IntType, signed, unsigned, no_integer, Setting, number, truth, characters, deserialized, floats,
  or_found, Setters, Result, deserialize_into, update_default, update_flags, truth_of, set_truth,
  update_boolean, update_string, set_parsed, to_parsed, set_integer, with_type, update_int,
  set_enum, with_enum, update_enum, with_floats, update_array, update,
}

module _ {Object W : Type 0} (g : GLib) (calls : Setters Object W) where
  open calls use {
    Double, find_property, int_type, set, strtoll, strtoull, atof, value_by_name, value_by_nick,
    deserializes,
  }

  -- The texts that stand for TRUE, and those for FALSE, in any case of their letters.
  abbrev pub Spells : Bool → Text → Type 0
  Spells true value =
      (map to_lower value ≡ codes "true")
      ⊎ ((map to_lower value ≡ codes "yes") ⊎ (value ≡ codes "1"))
  Spells false value =
      (map to_lower value ≡ codes "false")
      ⊎ ((map to_lower value ≡ codes "no") ⊎ (value ≡ codes "0"))

  -- A number is accepted unless it is zero and errno is set.
  abbrev pub Accepted : ℤ × Bool → Type 0
  Accepted (n, errno) = (is_zero n && errno) ≡ false

  -- What a text sets in a property of a class: a parameter, by its name, and the value.
  pub data Meant (self : Property Object) (value : Text)
      : PropertyClass → Text → Setting Double → Type 0 where
    by_own_type :
        {p : ParamSpec}
        → self.pspec ≡ some p
        → deserializes p value ≡ true
        → Meant self value basic p.name (deserialized value)
    by_type :
        {p : ParamSpec}
        → self.pspec ≡ none
        → find_property self.target self.name ≡ some p
        → deserializes p value ≡ true
        → Meant self value basic p.name (deserialized value)
    by_flags :
        {p : ParamSpec}
        → find_property self.target self.name ≡ some p
        → deserializes p value ≡ true
        → Meant self value flags p.name (deserialized value)
    by_spelling : {b : Bool} → Spells b value → Meant self value boolean self.name (truth b)
    by_text : Meant self value string self.name (characters value)
    by_signed :
        {p : ParamSpec}
        → find_property self.target self.name ≡ some p
        → int_type p ≡ signed
        → Accepted (strtoll value)
        → Meant self value int self.name (number (strtoll value).0)
    by_unsigned :
        {p : ParamSpec}
        → find_property self.target self.name ≡ some p
        → int_type p ≡ unsigned
        → Accepted (as_int64 (strtoull value).0, (strtoull value).1)
        → Meant self value int self.name (number (as_int64 (strtoull value).0))
    by_name :
        {p : ParamSpec} {e : ℤ}
        → find_property self.target self.name ≡ some p
        → value_by_name p value ≡ some e
        → Meant self value enum p.name (number e)
    by_nick :
        {p : ParamSpec} {e : ℤ}
        → find_property self.target self.name ≡ some p
        → value_by_name p value ≡ none
        → value_by_nick p value ≡ some e
        → Meant self value enum p.name (number e)
    by_number :
        {p : ParamSpec}
        → find_property self.target self.name ≡ some p
        → value_by_name p value ≡ none
        → value_by_nick p value ≡ none
        → Accepted (strtoll value)
        → Meant self value enum p.name (number (strtoll value).0)
    by_words :
        {p : ParamSpec}
        → find_property self.target self.name ≡ some p
        → Meant self value array self.name (floats (map atof (g.strsplit_all value space)))

  -- An update dereferences NULL if the parameter is not there and the class uses it untested.
  abbrev pub NoParameter : PropertyClass → Property Object → Type 0
  NoParameter basic self = (self.pspec ≡ none) × (find_property self.target self.name ≡ none)
  NoParameter flags self = find_property self.target self.name ≡ none
  NoParameter enum self = find_property self.target self.name ≡ none
  NoParameter _ self = ⊥

  -- The target has been set once, to what the text means, with the code EOK; or not at all, with
  -- another code; or NULL has been dereferenced, for want of the parameter.
  abbrev pub SetsOnce : PropertyClass → Property Object → Text → W → Result W → Type 0
  SetsOnce class self value w none = NoParameter class self
  SetsOnce class self value w (some (code, w')) =
      ((code ≡ eok)
        × (name : Text) × (s : Setting Double) × (Meant self value class name s
            × (w' ≡ set self.target name s w)))
      ⊎ ((code ≢ eok) × (w' ≡ w))

  deserialized-SetsOnce :
      (class : PropertyClass) (self : Property Object) (o : Option ParamSpec) (value : Text) (w : W)
      → (o ≡ none → NoParameter class self)
      → ((p : ParamSpec)
          → o ≡ some p
          → deserializes p value ≡ true
          → Meant self value class p.name (deserialized value))
      → SetsOnce class self value w (deserialize_into g calls self.target o value w)
  deserialized-SetsOnce class self none value w m h = m refl
  deserialized-SetsOnce class self (some p) value w m h = elim (Bool-cases (deserializes p value)) [
    | inl e ↦ rw e (inl (refl, _, _, (h p refl e, refl)))
    | inr e ↦ rw e (inr (λ c. cc, refl))
  ]

  basic-SetsOnce :
      (self : Property Object) (o : Option ParamSpec) (value : Text) (w : W)
      → self.pspec ≡ o
      → SetsOnce basic self value w (
          deserialize_into g calls self.target
            (or_found g calls o (find_property self.target self.name))
            value
            w)
  basic-SetsOnce self none value w e =
      deserialized-SetsOnce basic self (find_property self.target self.name) value w (λ n. (e, n))
        (λ p f d. by_type e f d)
  basic-SetsOnce self (some q) value w e =
      deserialized-SetsOnce basic self (some q) value w (λ n. cc) (λ p f d. by_own_type (e ∙ f) d)

  parsed-SetsOnce :
      (class : PropertyClass) (self : Property Object) (value name : Text) (r : ℤ × Bool) (w : W)
      → (Accepted r → Meant self value class name (number r.0))
      → SetsOnce class self value w (set_parsed g calls self.target name r w)
  parsed-SetsOnce class self value name (n, errno) w h = elim (Bool-cases (is_zero n && errno)) [
    | inl e ↦ rw e (inr (λ c. cc, refl))
    | inr e ↦ rw e (inl (refl, _, _, (h e, refl)))
  ]

  -- The tests of one row.
  abbrev tested : Text → Text → Text → Text → Bool
  tested long short digit value =
      text_eq (map to_lower value) long || text_eq (map to_lower value) short || text_eq value digit

  truth_of_lem :
      (value : Text)
      → truth_of g calls value ≡ (
          if tested (codes "true") (codes "yes") (codes "1") value
          then some true
          else if tested (codes "false") (codes "no") (codes "0") value
          then some false
          else none)
  unfolding truth_of
  truth_of_lem value =
      rw
        (
          g.strcasecmp_some value (codes "true"),
          g.strcasecmp_some value (codes "yes"),
          g.strcasecmp_some value (codes "false"),
          g.strcasecmp_some value (codes "no"),
        )
        refl

  tested_lem :
      (long short digit value : Text)
      → tested long short digit value ≡ true
      → (map to_lower value ≡ long) ⊎ ((map to_lower value ≡ short) ⊎ (value ≡ digit))
  tested_lem long short digit value h = elim (Bool-cases (text_eq (map to_lower value) long)) [
    | inl e ↦ inl ((text_eq_iff (map to_lower value) long).0 e)
    | inr e ↦ elim (Bool-cases (text_eq (map to_lower value) short)) [
      | inl k ↦ inr (inl ((text_eq_iff (map to_lower value) short).0 k))
      | inr k ↦ inr (inr ((text_eq_iff value digit).0 (cc (h, e, k))))
    ]
  ]

  chosen_row :
      (x y b : Bool)
      → (if x then some true else if y then some false else none) ≡ some b
      → ((b ≡ true) × (x ≡ true)) ⊎ ((b ≡ false) × (y ≡ true))
  chosen_row true y b h = inl (cc h, refl)
  chosen_row false true b h = inr (cc h, refl)
  chosen_row false false b h = cc h

  truth_of-Spells : (value : Text) (b : Bool) → truth_of g calls value ≡ some b → Spells b value
  truth_of-Spells value b h = elim (chosen_row _ _ b (sym (truth_of_lem value) ∙ h)) [
    | inl (e, k) ↦ rw e (tested_lem (codes "true") (codes "yes") (codes "1") value k)
    | inr (e, k) ↦ rw e (tested_lem (codes "false") (codes "no") (codes "0") value k)
  ]

  -- A text whose small letters are a word is no digit.
  other_digit :
      (value digit word : Text)
      → map to_lower value ≡ word
      → map to_lower digit ≢ word
      → text_eq value digit ≡ false
  other_digit value digit word e n = elim (Bool-cases (text_eq value digit)) [
    | inl k ↦ absurd (n (ap (map to_lower) (sym ((text_eq_iff value digit).0 k)) ∙ e))
    | inr k ↦ k
  ]

  spelled-truth_of : (value : Text) (b : Bool) → Spells b value → truth_of g calls value ≡ some b
  spelled-truth_of value true (inl e) = truth_of_lem value ∙ rw e refl
  spelled-truth_of value true (inr (inl e)) = truth_of_lem value ∙ rw e refl
  spelled-truth_of value true (inr (inr e)) = truth_of_lem value ∙ rw e refl
  spelled-truth_of value false (inl e) =
      truth_of_lem value ∙ rw (e, other_digit value (codes "1") (codes "false") e (λ z. cc)) refl
  spelled-truth_of value false (inr (inl e)) =
      truth_of_lem value ∙ rw (e, other_digit value (codes "1") (codes "no") e (λ z. cc)) refl
  spelled-truth_of value false (inr (inr e)) = truth_of_lem value ∙ rw e refl

  truth-SetsOnce :
      (self : Property Object) (value : Text) (b : Option Bool) (w : W)
      → truth_of g calls value ≡ b
      → SetsOnce boolean self value w (set_truth g calls self b w)
  truth-SetsOnce self value none w e = inr (λ c. cc, refl)
  truth-SetsOnce self value (some b) w e =
      inl (refl, _, _, (by_spelling (truth_of-Spells value b e), refl))

  -- The parameter of a property for integers is one.
  abbrev pub IsInteger : Option ParamSpec → Type 0
  IsInteger none = Unit
  IsInteger (some pspec) = int_type pspec ≢ no_integer

  integer-SetsOnce :
      (self : Property Object) (p : ParamSpec) (type : IntType) (value : Text) (w : W)
      → find_property self.target self.name ≡ some p
      → int_type p ≡ type
      → type ≢ no_integer
      → SetsOnce int self value w (set_integer g calls self type value w)
  integer-SetsOnce self p signed value w f e h =
      parsed-SetsOnce int self value self.name (strtoll value) w (λ a. by_signed f e a)
  integer-SetsOnce self p unsigned value w f e h =
      parsed-SetsOnce int self value self.name (to_parsed g calls (strtoull value)) w
        (λ a. by_unsigned f e a)
  integer-SetsOnce self p no_integer value w f e h = absurd (h refl)

  typed-SetsOnce :
      (self : Property Object) (o : Option ParamSpec) (value : Text) (w : W)
      → find_property self.target self.name ≡ o
      → IsInteger o
      → SetsOnce int self value w (with_type g calls self o value w)
  typed-SetsOnce self none value w f h = inr (λ c. cc, refl)
  typed-SetsOnce self (some p) value w f h = integer-SetsOnce self p (int_type p) value w f refl h

  chosen-SetsOnce :
      (self : Property Object) (p : ParamSpec) (value : Text) (name nick : Option ℤ) (w : W)
      → find_property self.target self.name ≡ some p
      → value_by_name p value ≡ name
      → value_by_nick p value ≡ nick
      → SetsOnce enum self value w (set_enum g calls self.target p value name nick w)
  chosen-SetsOnce self p value (some e) nick w f n k = inl (refl, _, _, (by_name f n, refl))
  chosen-SetsOnce self p value none (some e) w f n k = inl (refl, _, _, (by_nick f n k, refl))
  chosen-SetsOnce self p value none none w f n k =
      parsed-SetsOnce enum self value p.name (strtoll value) w (λ a. by_number f n k a)

  enum-SetsOnce :
      (self : Property Object) (o : Option ParamSpec) (value : Text) (w : W)
      → find_property self.target self.name ≡ o
      → SetsOnce enum self value w (with_enum g calls self.target o value w)
  enum-SetsOnce self none value w f = f
  enum-SetsOnce self (some p) value w f = chosen-SetsOnce self p value _ _ w f refl refl

  floats-SetsOnce :
      (self : Property Object) (o : Option ParamSpec) (value : Text) (w : W)
      → find_property self.target self.name ≡ o
      → SetsOnce array self value w (with_floats g calls self o value w)
  floats-SetsOnce self none value w f = inr (λ c. cc, refl)
  floats-SetsOnce self (some p) value w f = inl (refl, _, _, (by_words f, refl))

  -- An update of a property of any class sets its target once, to what the text means there, and
  -- returns EOK; or leaves it alone and returns another code; or dereferences NULL, which it does only
  -- if the class is that of all other types, of flags or of enumerations, and the parameter is not
  -- found. The condition is that a property of the class for integers has a parameter of such a type,
  -- if it has one.
  pub update-SetsOnce :
      (class : PropertyClass) (self : Property Object) (value : Text) (w : W)
      → (class ≡ int → IsInteger (find_property self.target self.name))
      → SetsOnce class self value w (update g calls class self value w)
  unfolding update update_default update_flags update_boolean update_string update_int update_enum
      update_array
  update-SetsOnce basic self value w h = basic-SetsOnce self self.pspec value w refl
  update-SetsOnce boolean self value w h = truth-SetsOnce self value (truth_of g calls value) w refl
  update-SetsOnce int self value w h = typed-SetsOnce self _ value w refl (h refl)
  update-SetsOnce string self value w h = inl (refl, _, _, (by_text, refl))
  update-SetsOnce enum self value w h = enum-SetsOnce self _ value w refl
  update-SetsOnce flags self value w h =
      deserialized-SetsOnce flags self _ value w (λ n. n) (λ p f d. by_flags f d)
  update-SetsOnce array self value w h = floats-SetsOnce self _ value w refl

  -- A text that means something for a property of a class is set, with the code EOK.
  pub update-Meant :
      (class : PropertyClass) (self : Property Object) (value name : Text) (s : Setting Double)
      (w : W)
      → Meant self value class name s
      → update g calls class self value w ≡ some (eok, set self.target name s w)
  unfolding update update_default update_flags update_boolean update_string update_int update_enum
      update_array
  update-Meant class self value name s w (by_own_type e d) = rw e (rw d refl)
  update-Meant class self value name s w (by_type e f d) = rw e (rw f (rw d refl))
  update-Meant class self value name s w (by_flags f d) = rw f (rw d refl)
  update-Meant class self value name s w (by_spelling {b = b} h) =
      rw (spelled-truth_of value b h) refl
  update-Meant class self value name s w by_text = refl
  update-Meant class self value name s w (by_signed f t a) = rw f (rw t (rw a refl))
  update-Meant class self value name s w (by_unsigned f t a) = rw f (rw t (rw a refl))
  update-Meant class self value name s w (by_name f n) = rw f (rw n refl)
  update-Meant class self value name s w (by_nick f n k) = rw f (rw n (rw k refl))
  update-Meant class self value name s w (by_number f n k a) = rw f (rw n (rw k (rw a refl)))
  update-Meant class self value name s w (by_words f) = rw f refl

  -- A text that is no name and no nick of an enumeration, and no number, sets the property to 0 and
  -- returns EOK, if g_ascii_strtoll reads no number as 0 and sets no errno then.
  pub update_enum-zero :
      (self : Property Object) (pspec : ParamSpec) (value : Text) (w : W)
      → find_property self.target self.name ≡ some pspec
      → value_by_name pspec value ≡ none
      → value_by_nick pspec value ≡ none
      → strtoll value ≡ (pos 0, false)
      → update_enum g calls self value w ≡ some (eok, set self.target pspec.name (number (pos 0)) w)
  unfolding update_enum
  update_enum-zero self pspec value w f n k z = rw f (rw n (rw k (rw z refl)))
