-- ===== src/ReturnCode/Laws.antt =====
-- The table of descriptions of gstd_return_codes.c fits the enumeration of gstd_return_codes.h.
use gstd_1_x.Base.{
  ◌≡◌, refl, List, [], ◌∷◌, Option, none, some, Text, text_eq, false, if◌then◌else◌,
}
use gstd_1_x.ReturnCode.{
  ReturnCode, eok, null_argument, bad_description, existing_name, missing_initialization,
  no_pipeline, no_resource, no_create, existing_resource, no_update, bad_command, no_read,
  no_connection, bad_value, state_error, ipc_error, event_error, missing_argument, missing_name,
  number_of, code_to_string, invalid_code,
}

-- All codes but the first; a description that none of them has is not found.
abbrev pub failures : List ReturnCode
failures =
    null_argument ∷ bad_description ∷ existing_name ∷ missing_initialization ∷ no_pipeline
    ∷ no_resource ∷ no_create ∷ existing_resource ∷ no_update ∷ bad_command ∷ no_read
    ∷ no_connection ∷ bad_value ∷ state_error ∷ ipc_error ∷ event_error ∷ missing_argument
    ∷ missing_name ∷ []

-- The first code of a list whose description is the given text.
pub with_description : Text → List ReturnCode → Option ReturnCode
unfolding code_to_string number_of
with_description s [] = none
with_description s (c ∷ cs) =
    let rest = with_description s cs in
    if text_eq (code_to_string (number_of c)) s then some c else rest

-- Every code can be read back from its description among all the codes, so the table has an entry
-- for each code and no two codes share one; and no entry is the text of an invalid code.
pub code_to_string_roundtrip :
    (c : ReturnCode)
    → (with_description (code_to_string (number_of c)) (eok ∷ failures) ≡ some c)
      × (text_eq (code_to_string (number_of c)) invalid_code ≡ false)
unfolding code_to_string number_of with_description
code_to_string_roundtrip eok = (refl, refl)
code_to_string_roundtrip _ = (refl, refl)
