-- ===== src/Tasks/Inputs.antt =====
-- The input requests of a task (`applyInputResponses` and `requireInput` of
-- apps/torii/src/tasks/task-store.service.ts): JSON objects as association lists of distinct keys.
use keidai.Common.{
  String, str_eq, Bool, false, not, ◌||◌, List, [], ◌∷◌, ◌++◌, map, if◌then◌else◌, includes,
  delete_where,
}

-- A JSON value that is stored and echoed, by its text.
abbrev pub Payload : Type 0
Payload = String

abbrev pub Requests : Type 0
Requests = List (String × Payload)

-- `Object.keys(requests)`
abbrev pub keys : Requests → List String
keys = map (λ r. r.0)

-- The names that `in` finds on every plain object, by its prototype.
abbrev pub object_prototype_keys : List String
object_prototype_keys =
    "constructor" ∷ "__defineGetter__" ∷ "__defineSetter__" ∷ "hasOwnProperty" ∷ "__lookupGetter__"
    ∷ "__lookupSetter__" ∷ "isPrototypeOf" ∷ "propertyIsEnumerable" ∷ "toString" ∷ "valueOf"
    ∷ "__proto__" ∷ "toLocaleString" ∷ []

-- `key in outstanding`
unfoldable pub in_object : String → Requests → Bool
in_object key requests = includes (keys requests) key || includes object_prototype_keys key

-- `delete outstanding[key]`
abbrev pub remove_key : String → Requests → Requests
remove_key key requests = delete_where (λ r. str_eq r.0 key) requests

-- The loop of `applyInputResponses`: the outstanding requests and the satisfied keys after it.
unfoldable pub apply_responses : List String → Requests → List String → Requests × List String
unfolding in_object
apply_responses [] outstanding satisfied = (outstanding, satisfied)
apply_responses (key ∷ responses) outstanding satisfied =
    let skip = not (in_object key outstanding) || includes satisfied key in
    apply_responses responses (if skip then outstanding else remove_key key outstanding)
      (if skip then satisfied else satisfied ++ key ∷ [])

-- `{ ...old, ...requests }`: a key of both takes the new value in the old place.
unfoldable pub set_key : String → Payload → Requests → Requests
set_key key value [] = (key, value) ∷ []
set_key key value ((k, v) ∷ rest) =
    if str_eq k key then (k, value) ∷ rest else (k, v) ∷ set_key key value rest

unfoldable pub merge_requests : Requests → Requests → Requests
unfolding set_key
merge_requests old [] = old
merge_requests old ((key, value) ∷ rest) = merge_requests (set_key key value old) rest

-- The loop of `requireInput` that looks for a key that was used before.
unfoldable pub any_used : List String → List String → Bool
any_used satisfied [] = false
any_used satisfied (key ∷ rest) = includes satisfied key || any_used satisfied rest
