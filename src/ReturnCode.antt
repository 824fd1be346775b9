-- ===== src/ReturnCode.antt =====
-- libgstd/gstd_return_codes.h and gstd_return_codes.c: the codes that every operation returns,
-- their numbers and their descriptions.
pub mod Laws
use gstd_1_x.Base.{
  ℕ, Text, codes, List, [], ◌∷◌, Option, none, some, ltb, if◌then◌else◌, length, get_elem?,
}

-- The constructors stand in the order of the enumeration.
pub data ReturnCode : Type 0 where
  eok null_argument bad_description existing_name missing_initialization : ReturnCode
  no_pipeline no_resource no_create existing_resource no_update bad_command : ReturnCode
  no_read no_connection bad_value state_error ipc_error event_error : ReturnCode
  missing_argument missing_name : ReturnCode

-- The value that C gives the enumerator.
unfoldable pub number_of : ReturnCode → ℕ
number_of eok = 0
number_of null_argument = 1
number_of bad_description = 2
number_of existing_name = 3
number_of missing_initialization = 4
number_of no_pipeline = 5
number_of no_resource = 6
number_of no_create = 7
number_of existing_resource = 8
number_of no_update = 9
number_of bad_command = 10
number_of no_read = 11
number_of no_connection = 12
number_of bad_value = 13
number_of state_error = 14
number_of ipc_error = 15
number_of event_error = 16
number_of missing_argument = 17
number_of missing_name = 18

-- `code_description`, whose designated initialisers stand in the order of the enumeration.
abbrev code_description : List Text
code_description =
    codes "Success"
    ∷ codes "Required argument is NULL"
    ∷ codes "Bad pipeline description"
    ∷ codes "Name already exists"
    ∷ codes "Missing initialization"
    ∷ codes "Pipeline requested doesn't exist"
    ∷ codes "Resource requested doesn't exist"
    ∷ codes "Cannot create in this resource"
    ∷ codes "Resource already exists"
    ∷ codes "Cannot update this resource"
    ∷ codes "Bad command"
    ∷ codes "Resource not readable"
    ∷ codes "Cannot connect"
    ∷ codes "Bad value"
    ∷ codes "State error"
    ∷ codes "IPC error"
    ∷ codes "Event error"
    ∷ codes "One or more arguments are missing"
    ∷ codes "Name is missing"
    ∷ []

abbrev pub invalid_code : Text
invalid_code = codes "(invalid code)"

abbrev or_invalid : Option Text → Text
or_invalid none = invalid_code
or_invalid (some s) = s

-- `gstd_return_code_to_string`, on the number that a caller passes.
unfoldable pub code_to_string : ℕ → Text
code_to_string n =
    if ltb n (length code_description)
    then or_invalid (get_elem? code_description n)
    else invalid_code
