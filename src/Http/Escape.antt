-- ===== src/Http/Escape.antt =====
-- json_escape_string of libgstd/gstd_http.c, against a reader of quoted strings of JSON.
use gstd_1_x.Base.{
  ℕ, ◌≡◌, refl, Text, Bool, true, false, ◌||◌, [], ◌∷◌, ◌++◌, Option, none, some, ◌==◌, Free,
  if◌then◌else◌, arith, ltb, ◌≤◌,
}

abbrev pub quote : ℕ
quote = 34

abbrev pub backslash : ℕ
backslash = 92

-- The loop of json_escape_string
unfoldable pub json_escape_string : Text → Text
json_escape_string [] = []
json_escape_string (c ∷ s) =
    let rest = json_escape_string s in
    if (c == quote) || (c == backslash) then backslash ∷ c ∷ rest else c ∷ rest

abbrev before : ℕ → Option (Text × Text) → Option (Text × Text)
before c none = none
before c (some (s, left)) = some (c ∷ s, left)

-- A reader of what follows the opening quote of a string: a backslash stands before a quote or a
-- backslash, a quote alone ends the string, and no control character, a byte below 32, stands in it as
-- it is. It gives the string and what is left behind it; the
-- flag says that a backslash has just been read.
unfoldable pub read_string : Bool → Text → Option (Text × Text)
read_string escaped [] = none
read_string true (c ∷ s) =
    let rest = read_string false s in
    if (c == quote) || (c == backslash) then before c rest else none
read_string false (c ∷ s) =
    let rest = read_string false s in
    let escape = read_string true s in
    if c == quote
    then some ([], s)
    else (if c == backslash then escape else (if ltb c 32 then none else before c rest))

-- No control character is in it.
abbrev pub IsPlain : Text → Type 0
IsPlain [] = Unit
IsPlain (c ∷ s) = (32 ≤ c) × IsPlain s

-- A string without control characters, which json_escape_string does not escape, is read back when it
-- is escaped and set between quotes, whatever follows it.
pub read_string-json_escape_string :
    (s r : Text) → IsPlain s → read_string false (json_escape_string s ++ quote ∷ r) ≡ some (s, r)
unfolding json_escape_string read_string
read_string-json_escape_string [] r h = refl
read_string-json_escape_string (c ∷ s) r h =
    ground (arith, h.0, read_string-json_escape_string s r h.1)

-- A string with a quote in it, and no backslash and no control character before, is cut short where it is set between quotes
-- as it stands.
pub read_string-unescaped :
    (s t r : Text)
    → Free quote s
    → Free backslash s
    → IsPlain s
    → read_string false (s ++ quote ∷ (t ++ quote ∷ r)) ≡ some (s, t ++ quote ∷ r)
unfolding read_string
read_string-unescaped [] t r h k p = refl
read_string-unescaped (c ∷ s) t r h k p =
    ground (arith, h.0, k.0, p.0, read_string-unescaped s t r h.1 k.1 p.1)
