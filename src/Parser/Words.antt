-- ===== src/Parser/Words.antt =====
-- Arguments of commands, and the strings that the commands compose (g_strdup_printf).
use gstd_1_x.Base.{◌≡◌, ap, Text, codes, List, [], ◌∷◌, ◌++◌, Option, none, some}
use gstd_1_x.ReturnCode.{ReturnCode}
use gstd_1_x.Action.{Action, return, undefined}

-- A pointer that a callback gets: NULL, a string, or what stands behind the end of a vector of
-- tokens, which no code may look at.
pub data Argument : Type 0 where
  null : Argument
  str : Text → Argument
  wild : Argument

-- tokens[1]: the vector of no tokens holds one pointer only, and it is NULL.
unfoldable pub second_token : List Text → Argument
second_token [] = wild
second_token (a ∷ []) = null
second_token (a ∷ b ∷ ts) = str b

module _ {S A : Type 0} where
  -- g_return_val_if_fail (arg, code), and check_argument (arg, code)
  abbrev pub with_argument : Argument → ReturnCode → (Text → Action S A) → Action S A
  with_argument null code k = return code
  with_argument (str s) code k = k s
  with_argument wild code k = undefined

  -- check_argument (tokens[i], code), where tokens[i - 1] is no NULL
  abbrev pub with_token : Option Text → ReturnCode → (Text → Action S A) → Action S A
  with_token none code k = return code
  with_token (some s) code k = k s

-- What "%s" puts for a pointer that may be NULL.
abbrev pub or_printed : Text → Option Text → Text
or_printed null_text none = null_text
or_printed null_text (some s) = s

-- "/pipelines/%s" with what follows it.
abbrev pub of_pipeline : Text → Text → Text
of_pipeline p rest = codes "/pipelines/" ++ p ++ rest

-- "/pipelines/%s/elements/%s" with what follows it.
abbrev pub of_element : Text → Text → Text → Text
of_element p e rest = of_pipeline p (codes "/elements/" ++ e ++ rest)

text_of : Argument → Text
text_of (str s) = s
text_of _ = []

pub str_text : {s r : Text} → str s ≡ str r → s ≡ r
unfolding text_of
str_text e = ap text_of e
