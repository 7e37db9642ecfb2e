-- ===== src/Policy/Validate.antt =====
-- apps/torii/src/policy/utils/assert-valid-group-servers.ts: the check of a group's server policies
-- before a write. An error is data in place of its text; `throw` is the list of all errors.
pub mod Laws
use keidai.Common.{
  String, str_eq, eq_iff, ◌≡◌, refl, ◌↔◌, ◌⊎◌, inl, inr, Bool, true, false, not, Option, none, some,
  List, [], ◌∷◌, ◌++◌, map, if◌then◌else◌, includes, includes_iff, Elem, IsDistinct, All, arith,
  append-eq-nil_iff,
}
use keidai.Policy.{GroupServerPolicy}

pub data ToolList : Type 0 where
  allow_list deny_list gated_list : ToolList

pub data WriteError : Type 0 where
  duplicate_tool : String → ToolList → String → WriteError
  overlapping : String → ToolList → ToolList → String → WriteError
  duplicate_server : String → WriteError
  unknown_server : String → WriteError

-- `if (test) errors.push(e)`
abbrev pub push_if : Bool → WriteError → List WriteError
push_if test e = if test then e ∷ [] else []

-- The loop of `duplicateToolsInList` over `seen`.
unfoldable pub duplicates_from : List String → List String → ToolList → String → List WriteError
duplicates_from seen [] list server = []
duplicates_from seen (tool ∷ tools) list server =
    push_if (includes seen tool) (duplicate_tool tool list server)
    ++ duplicates_from (tool ∷ seen) tools list server

unfoldable pub duplicate_tools_in_list : List String → ToolList → String → List WriteError
unfolding duplicates_from
duplicate_tools_in_list tools list server = duplicates_from [] tools list server

-- `new Set(tools)` in insertion order, past those of `seen`.
unfoldable pub to_set_from : List String → List String → List String
to_set_from seen [] = []
to_set_from seen (tool ∷ tools) =
    (if includes seen tool then [] else tool ∷ []) ++ to_set_from (tool ∷ seen) tools

-- `for (tool of xs) if (other.has(tool)) errors.push(...)`
unfoldable pub overlaps : List String → List String → ToolList → ToolList → String → List WriteError
overlaps [] other a b server = []
overlaps (tool ∷ tools) other a b server =
    push_if (includes other tool) (overlapping tool a b server) ++ overlaps tools other a b server

unfoldable pub overlapping_tools : GroupServerPolicy → List WriteError
unfolding overlaps to_set_from
overlapping_tools policy =
    overlaps (to_set_from [] policy.allow) policy.deny allow_list deny_list policy.server
    ++ overlaps (to_set_from [] policy.deny) policy.gated deny_list gated_list policy.server

-- One round of the loop of `assertValidGroupServers`.
unfoldable pub server_errors : List String → List String → GroupServerPolicy → List WriteError
unfolding duplicate_tools_in_list overlapping_tools
server_errors known seen policy =
    push_if (includes seen policy.server) (duplicate_server policy.server)
    ++ (push_if (not (includes known policy.server)) (unknown_server policy.server)
        ++ (duplicate_tools_in_list policy.allow allow_list policy.server
            ++ (duplicate_tools_in_list policy.deny deny_list policy.server
                ++ (duplicate_tools_in_list policy.gated gated_list policy.server
                    ++ overlapping_tools policy))))

unfoldable pub errors_from : List String → List String → List GroupServerPolicy → List WriteError
unfolding server_errors
errors_from known seen [] = []
errors_from known seen (policy ∷ policies) =
    server_errors known seen policy ++ errors_from known (policy.server ∷ seen) policies

-- `none` is the normal return, `some errors` the thrown `GroupPolicyWriteError`.
unfoldable pub assert_valid_group_servers :
    List GroupServerPolicy → List String → Option (List WriteError)
unfolding errors_from
assert_valid_group_servers servers known = elim (errors_from known [] servers) [
  | [] ↦ none
  | e ∷ es ↦ some (e ∷ es)
]
