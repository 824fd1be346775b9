-- ===== src/Http/Carried.antt =====
-- What a request over HTTP carries under a name, in its body or its query, and the status of a
-- response, described apart from gstd_http.c.
use gstd_1_x.Base.{
  Text, codes, ◌≡◌, ◌≢◌, refl, [], ◌∷◌, Option, none, some, true, Bool-cases, inl, inr,
  if◌then◌else◌,
}
use gstd_1_x.ReturnCode.{ReturnCode, eok, bad_command, no_resource, existing_resource, bad_value}
use gstd_1_x.Http.{
  SoupStatus, status_ok, status_no_content, status_bad_request, status_not_found, status_conflict,
  Message, get_status_code, JsonGlib, member, members, parse_json_body, or_query, name_of,
  description_of,
}

-- The status that belongs to a code.
pub data HasStatus : ReturnCode → SoupStatus → Type 0 where
  succeeded : HasStatus eok status_ok
  no_command : HasStatus bad_command status_not_found
  not_there : HasStatus no_resource status_not_found
  there_already : HasStatus existing_resource status_conflict
  no_such_value : HasStatus bad_value status_no_content
  failed :
      {code : ReturnCode}
      → code ≢ eok
      → code ≢ bad_command
      → code ≢ no_resource
      → code ≢ existing_resource
      → code ≢ bad_value
      → HasStatus code status_bad_request

failed_lem :
    (code : ReturnCode)
    → code ≢ eok
    → code ≢ bad_command
    → code ≢ no_resource
    → code ≢ existing_resource
    → code ≢ bad_value
    → get_status_code code ≡ status_bad_request
unfolding get_status_code
failed_lem eok a b c d e = absurd (a refl)
failed_lem bad_command a b c d e = absurd (b refl)
failed_lem no_resource a b c d e = absurd (c refl)
failed_lem existing_resource a b c d e = absurd (d refl)
failed_lem bad_value a b c d e = absurd (e refl)
failed_lem _ a b c d e = refl

pub status_of :
    {code : ReturnCode} {status : SoupStatus}
    → HasStatus code status
    → get_status_code code ≡ status
unfolding get_status_code
status_of succeeded = refl
status_of no_command = refl
status_of not_there = refl
status_of there_already = refl
status_of no_such_value = refl
status_of (failed {code = code} a b c d e) = failed_lem code a b c d e

module _ (j : JsonGlib) where
  open j use {Node, load, holds_object, has_member, string_member, str_has_prefix}

  -- A body of a type that begins with "application/json" is an object that has a string under the key.
  pub data InBody : Option Text → Option Text → Text → Text → Type 0 where
    in_object :
        {type body key s : Text} {root : Node}
        → body ≢ []
        → str_has_prefix type (codes "application/json") ≡ true
        → load body ≡ some root
        → holds_object root ≡ true
        → has_member root key ≡ true
        → string_member root key ≡ some s
        → InBody (some type) (some body) key s

  -- The body comes before the query.
  pub data Carries (msg : Message) (key : Text) : Option Text → Type 0 where
    by_body : {s : Text} → InBody msg.content_type msg.body key s → Carries msg key (some s)
    by_query :
        {lookup : Text → Option Text}
        → ((s : Text) → ¬ InBody msg.content_type msg.body key s)
        → msg.query ≡ some lookup
        → Carries msg key (lookup key)
    nowhere :
        ((s : Text) → ¬ InBody msg.content_type msg.body key s)
        → msg.query ≡ none
        → Carries msg key none

  abbrev in_root : Option Node → Text → Option Text
  in_root none key = none
  in_root (some root) key = if holds_object root then member j root key else none

  abbrev value_in : Option Text → Option Text → Text → Option Text
  value_in type none key = none
  value_in type (some []) key = none
  value_in none (some (c ∷ s)) key = none
  value_in (some type) (some (c ∷ s)) key =
      if str_has_prefix type (codes "application/json") then in_root (load (c ∷ s)) key else none

  members-in_root :
      (r : Option Node)
      → ((members j r).0 ≡ in_root r (codes "name"))
        × ((members j r).1 ≡ in_root r (codes "description"))
  members-in_root none = (refl, refl)
  members-in_root (some root) = elim (Bool-cases (holds_object root)) [
    | inl e ↦ rw e (refl, refl)
    | inr e ↦ rw e (refl, refl)
  ]

  parse_json_body-value_in :
      (type body : Option Text)
      → ((parse_json_body j type body).0 ≡ value_in type body (codes "name"))
        × ((parse_json_body j type body).1 ≡ value_in type body (codes "description"))
  unfolding parse_json_body
  parse_json_body-value_in type none = (refl, refl)
  parse_json_body-value_in type (some []) = (refl, refl)
  parse_json_body-value_in none (some (c ∷ s)) = (refl, refl)
  parse_json_body-value_in (some type) (some (c ∷ s)) =
      elim (Bool-cases (str_has_prefix type (codes "application/json"))) [
        | inl e ↦ rw e (members-in_root (load (c ∷ s)))
        | inr e ↦ rw e (refl, refl)
      ]

  value_of :
      {type body : Option Text} {key s : Text}
      → InBody type body key s
      → value_in type body key ≡ some s
  value_of (in_object {body = []} n p l h m v) = absurd (n refl)
  value_of (in_object {body = c ∷ s} n p l h m v) = rw p (rw l (rw h (rw m v)))

  from_root :
      (type body : Text) (r : Option Node) (key s : Text)
      → body ≢ []
      → str_has_prefix type (codes "application/json") ≡ true
      → load body ≡ r
      → in_root r key ≡ some s
      → InBody (some type) (some body) key s
  from_root type body none key s n p l v = cc
  from_root type body (some root) key s n p l v = elim (Bool-cases (holds_object root)) [
    | inr e ↦ cc
    | inl e ↦ elim (Bool-cases (has_member root key)) [
      | inr k ↦ cc
      | inl k ↦ in_object n p l e k (cc (e, k, v))
    ]
  ]

  found :
      (type body : Option Text) (key s : Text)
      → value_in type body key ≡ some s
      → InBody type body key s
  found type none key s v = cc
  found type (some []) key s v = cc
  found none (some (c ∷ b)) key s v = cc
  found (some type) (some (c ∷ b)) key s v =
      elim (Bool-cases (str_has_prefix type (codes "application/json"))) [
        | inl e ↦ from_root type (c ∷ b) (load (c ∷ b)) key s (λ z. cc) e refl (cc (e, v))
        | inr e ↦ cc
      ]

  absent :
      (type body : Option Text) (key : Text) (v : Option Text)
      → value_in type body key ≡ v
      → ((s : Text) → ¬ InBody type body key s)
      → v ≡ none
  absent type body key none e n = refl
  absent type body key (some s) e n = absurd (n s (found type body key s e))

  carried :
      {msg : Message} {key : Text} {v : Option Text}
      → Carries msg key v
      → or_query j (value_in msg.content_type msg.body key) msg.query key ≡ v
  carried (by_body h) = rw (value_of h) refl
  carried {msg = msg} {key = key} (by_query n q) =
      rw (absent msg.content_type msg.body key _ refl n) (rw q refl)
  carried {msg = msg} {key = key} (nowhere n q) =
      rw (absent msg.content_type msg.body key _ refl n) (rw q refl)

  pub name_of-carried :
      {msg : Message} {v : Option Text} → Carries msg (codes "name") v → name_of j msg ≡ v
  unfolding name_of
  name_of-carried {msg = msg} h =
      rw ((parse_json_body-value_in msg.content_type msg.body).0) (carried h)

  pub description_of-carried :
      {msg : Message} {v : Option Text}
      → Carries msg (codes "description") v
      → description_of j msg ≡ v
  unfolding description_of
  description_of-carried {msg = msg} h =
      rw ((parse_json_body-value_in msg.content_type msg.body).1) (carried h)
