-- ===== src/Printing/Brackets.antt =====
-- The brackets of the texts that are cut and continued, gstd_list_to_string of libgstd/gstd_list.c and
-- gstd_element_to_string of libgstd/gstd_element.c: a reader of JSON counts those that are open, but
-- for the ones in strings.
use mathlib.Core.Option
use mathlib.Core.Path.{subst}
use gstd_1_x.Base.{
  ℕ, zero, suc, ◌≡◌, ◌≢◌, refl, sym, ap, ◌∙◌, Text, codes, List, [], ◌∷◌, ◌++◌, some, ◌==◌,
  if◌then◌else◌, Free, All, arith,
}
use gstd_1_x.Printing.Elements.{cut, separator, print_nodes, list_to_string}

-- Outside of strings with so many brackets open, in a string, behind a backslash in a string; or a
-- bracket was closed that was not open.
pub data Scan : Type 0 where
  plain : ℕ → Scan
  quoted : ℕ → Scan
  escaped : ℕ → Scan
  broken : Scan

abbrev closed : ℕ → Scan
closed zero = broken
closed (suc n) = plain n

abbrev pub step : ℕ → Scan → Scan
step c (plain n) =
    if c == b'"'
    then quoted n
    else if c == b'{'
    then plain (suc n)
    else if c == b'}'
    then closed n
    else plain n
step c (quoted n) = if c == b'"' then plain n else if c == b'\\' then escaped n else quoted n
step c (escaped n) = quoted n
step c broken = broken

unfoldable pub scan : Text → Scan → Scan
scan [] s = s
scan (c ∷ t) s = scan t (step c s)

-- All brackets are closed at the end, and all strings.
abbrev pub IsBalanced : Text → Type 0
IsBalanced t = scan t (plain 0) ≡ plain 0

pub scan-append : (t u : Text) (s : Scan) → scan (t ++ u) s ≡ scan u (scan t s)
unfolding scan
scan-append [] u s = refl
scan-append (c ∷ t) u s = scan-append t u (step c s)

scan-broken : (t : Text) → scan t broken ≡ broken
unfolding scan
scan-broken [] = refl
scan-broken (c ∷ t) = scan-broken t

-- The same in one more bracket.
abbrev pub lift : Scan → Scan
lift (plain n) = plain (suc n)
lift (quoted n) = quoted (suc n)
lift (escaped n) = escaped (suc n)
lift broken = broken

step-lift : (c : ℕ) (s : Scan) → step c s ≢ broken → step c (lift s) ≡ lift (step c s)
step-lift c (plain zero) h = ground arith
step-lift c (plain (suc n)) h = ground arith
step-lift c (quoted n) h = ground arith
step-lift c (escaped n) h = refl
step-lift c broken h = refl

pub scan-lift : (t : Text) (s : Scan) → scan t s ≢ broken → scan t (lift s) ≡ lift (scan t s)
unfolding scan
scan-lift [] s h = refl
scan-lift (c ∷ t) s h = rw (step-lift c s λ e. h (rw e (scan-broken t))) (scan-lift t (step c s) h)

-- What ends on a closing bracket in a line of its own was in one bracket before.
before_last : (s : Scan) → scan (codes "\n}") s ≡ plain 0 → s ≡ plain 1
unfolding scan
before_last (plain zero) h = cc
before_last (plain (suc n)) h = ap (λ p. elim p [ plain k ↦ plain (suc k) | _ ↦ broken ]) h
before_last (quoted n) h = cc
before_last (escaped n) h = cc
before_last broken h = cc

pub cut-append : (t : Text) (a b : ℕ) → cut (t ++ a ∷ b ∷ []) ≡ some t
unfolding cut
cut-append [] a b = refl
cut-append (x ∷ []) a b = refl
cut-append (x ∷ y ∷ []) a b = refl
cut-append (x ∷ y ∷ z ∷ t) a b = ap (Option.map λ r. x ∷ r) (cut-append (y ∷ z ∷ t) a b)

-- What is printed for an object ends on a closing bracket in a line of its own: the documented output
-- of JSON-GLib for an object with members when it is asked to be pretty.
abbrev pub EndsInBracket : Text → Type 0
EndsInBracket t = (props : Text) × (t ≡ props ++ codes "\n}")

-- Cutting the last bracket leaves one open.
pub cut-open :
    (t props : Text)
    → IsBalanced t
    → EndsInBracket t
    → cut t ≡ some props
    → scan props (plain 0) ≡ plain 1
cut-open t props h (p, e) hc =
    let same : p ≡ props = cc (cut-append p 10 125, hc, e) in
    let whole = sym (scan-append p (codes "\n}") (plain 0)) ∙ rw (sym e) h in
    rw (sym same) (before_last (scan p (plain 0)) whole)

-- A string without quotes and backslashes is read over.
scan-quoted : (t : Text) (n : ℕ) → Free b'"' t → Free b'\\' t → scan t (quoted n) ≡ quoted n
unfolding scan
scan-quoted [] n h k = refl
scan-quoted (c ∷ t) n h k =
    let over : step c (quoted n) ≡ quoted n = ground (arith, h.0, k.0) in
    rw over (scan-quoted t n h.1 k.1)

abbrev pub IsPlainName : Text → Type 0
IsPlainName n = Free b'"' n × Free b'\\' n

separator-IsBalanced : (ns : List Text) (k : ℕ) → scan (separator ns) (plain k) ≡ plain k
unfolding scan
separator-IsBalanced [] k = refl
separator-IsBalanced (n ∷ ns) k = refl

print_nodes-IsBalanced :
    (ns : List Text) (acc : Text) (s : Scan) (k : ℕ)
    → All IsPlainName ns
    → scan acc s ≡ plain k
    → scan (print_nodes ns acc) s ≡ plain k
unfolding print_nodes scan
print_nodes-IsBalanced [] acc s k h e = e
print_nodes-IsBalanced (n ∷ ns) acc s k h e =
    let separated = separator-IsBalanced ns k in
    print_nodes-IsBalanced ns _ s k h.1
      (simp (scan-append, e, scan-quoted n (suc k) h.0.0 h.0.1, separated))

pub some-injective : (s t : Text) → some s ≡ some t → s ≡ t
some-injective s t e = cc

-- The text of a list is balanced, if no name of a node has a quote or a backslash, and the text of its
-- parent class is balanced and ends on a bracket in a line of its own.
pub list_to_string-IsBalanced :
    (props : Text) (names : List Text) (t : Text)
    → IsBalanced props
    → EndsInBracket props
    → All IsPlainName names
    → list_to_string props names ≡ some t
    → IsBalanced t
unfolding list_to_string scan
list_to_string-IsBalanced props names t h e hn r =
    let q : cut props ≡ some e.0 = cc (cut-append e.0 10 125, e.1) in
    let opened = cut-open props e.0 h e q in
    let nodes = print_nodes-IsBalanced names [] (plain 1) 1 hn refl in
    let text = rw q at r in
    subst IsBalanced (some-injective _ _ text) (simp (scan-append, opened, nodes))
