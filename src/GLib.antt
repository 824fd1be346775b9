-- ===== src/GLib.antt =====
-- What the program calls of GLib, a library of its own: an interface of functions on C strings, and
-- their documented behaviour as laws. The functions that only allocate or free memory have no
-- field: strings are values here.
pub mod Reference
pub mod Words
use gstd_1_x.Base.{
  ℕ, suc, ◌≡◌, ◌≢◌, List, [], ◌∷◌, ◌++◌, map, Text, Free, to_lower, text_eq, Option, some, Bool,
}

-- What follows the first delimiter: an empty rest is still one token.
abbrev pub rest_tokens : (Text → List Text) → Text → List Text
rest_tokens split [] = [] ∷ []
rest_tokens split (c ∷ s) = split (c ∷ s)

pub record GLib : Type 0 where
  -- g_strsplit (string, delimiter, max_tokens), at a delimiter of one byte.
  pub strsplit : Text → ℕ → ℕ → List Text
  -- g_strsplit_set (string, delimiters, -1), at a set of one delimiter.
  pub strsplit_set : Text → ℕ → List Text
  -- g_strsplit (string, delimiter, -1), at a delimiter of one byte: all tokens.
  pub strsplit_all : Text → ℕ → List Text
  -- g_ascii_strcasecmp (a, b) == 0; the second string may be NULL.
  pub strcasecmp : Text → Option Text → Bool
  -- What g_strdup_printf puts for a "%s" whose argument is NULL.
  pub printf_null : Text
  -- The empty string has no token.
  pub strsplit_empty : (d n : ℕ) → strsplit [] d n ≡ []
  -- One token is the whole string, delimiters included.
  pub strsplit_one : (s : Text) (d : ℕ) → s ≢ [] → strsplit s d 1 ≡ s ∷ []
  -- A string without the delimiter is one token.
  pub strsplit_last : (s : Text) (d n : ℕ) → s ≢ [] → Free d s → strsplit s d (suc n) ≡ s ∷ []
  -- While more than one token is left to fill, the string is cut at its first delimiter.
  pub strsplit_next :
      (p r : Text) (d n : ℕ)
      → Free d p
      → strsplit (p ++ d ∷ r) d (suc (suc n)) ≡ p ∷ rest_tokens (λ s. strsplit s d (suc n)) r
  pub strsplit_set_empty : (d : ℕ) → strsplit_set [] d ≡ []
  pub strsplit_set_last : (s : Text) (d : ℕ) → s ≢ [] → Free d s → strsplit_set s d ≡ s ∷ []
  pub strsplit_set_next :
      (p r : Text) (d : ℕ)
      → Free d p
      → strsplit_set (p ++ d ∷ r) d ≡ p ∷ rest_tokens (λ s. strsplit_set s d) r
  pub strsplit_all_empty : (d : ℕ) → strsplit_all [] d ≡ []
  pub strsplit_all_last : (s : Text) (d : ℕ) → s ≢ [] → Free d s → strsplit_all s d ≡ s ∷ []
  pub strsplit_all_next :
      (p r : Text) (d : ℕ)
      → Free d p
      → strsplit_all (p ++ d ∷ r) d ≡ p ∷ rest_tokens (λ s. strsplit_all s d) r
  -- Two strings are equal but for the case of ASCII letters.
  pub strcasecmp_some :
      (a b : Text) → strcasecmp a (some b) ≡ text_eq (map to_lower a) (map to_lower b)
