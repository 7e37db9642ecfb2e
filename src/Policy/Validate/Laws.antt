-- ===== src/Policy/Validate/Laws.antt =====
-- What apps/torii/src/policy/utils/assert-valid-group-servers.ts accepts.
use keidai.Common.{
  String, ◌≡◌, ◌↔◌, inl, none, List, [], ◌∷◌, map, includes_iff, Elem, IsDistinct, All, arith,
  append-eq-nil_iff, All-at, find_key, IsDisjoint, IsDisjoint-cons_right, IsDisjoint-nil_right,
}
use keidai.Policy.{GroupServerPolicy, vote, server_policy_for, effect, allow, deny}
use keidai.Policy.Laws.{vote-allow_iff, vote-deny_iff}
use keidai.Policy.Validate.{
  ToolList, duplicates_from, duplicate_tools_in_list, to_set_from, overlaps, overlapping_tools,
  server_errors, errors_from, assert_valid_group_servers, allow_list, deny_list, gated_list,
}

duplicates_from-nil_iff :
    (seen tools : List String) (list : ToolList) (server : String)
    → (duplicates_from seen tools list server ≡ []) ↔ (IsDistinct tools × IsDisjoint tools seen)
unfolding duplicates_from
duplicates_from-nil_iff seen [] list server = ground arith
duplicates_from-nil_iff seen (tool ∷ tools) list server = ground (
  arith,
  duplicates_from-nil_iff (tool ∷ seen) tools list server,
  includes_iff seen tool,
  IsDisjoint-cons_right tool tools seen,
)

duplicate_tools-nil_iff :
    (tools : List String) (list : ToolList) (server : String)
    → (duplicate_tools_in_list tools list server ≡ []) ↔ IsDistinct tools
unfolding duplicate_tools_in_list
duplicate_tools-nil_iff tools list server =
    ground (arith, duplicates_from-nil_iff [] tools list server, IsDisjoint-nil_right tools)

overlaps-nil_iff :
    (tools other : List String) (a b : ToolList) (server : String)
    → (overlaps tools other a b server ≡ []) ↔ IsDisjoint tools other
unfolding overlaps
overlaps-nil_iff [] other a b server = ground arith
overlaps-nil_iff (tool ∷ tools) other a b server =
    ground (arith, overlaps-nil_iff tools other a b server, includes_iff other tool)

-- The set of a list has the elements of the list.
to_set_from-IsDisjoint_iff :
    (seen xs other : List String)
    → IsDisjoint seen other
    → IsDisjoint (to_set_from seen xs) other ↔ IsDisjoint xs other
unfolding to_set_from
to_set_from-IsDisjoint_iff seen [] other h = ground arith
to_set_from-IsDisjoint_iff seen (x ∷ xs) other h = ground (
  arith,
  to_set_from-IsDisjoint_iff (x ∷ seen) xs other,
  includes_iff seen x,
  All-at (λ y. ¬ Elem y other) x seen h,
)

overlapping_tools-nil_iff :
    (p : GroupServerPolicy)
    → (overlapping_tools p ≡ []) ↔ (IsDisjoint p.allow p.deny × IsDisjoint p.deny p.gated)
unfolding overlapping_tools
overlapping_tools-nil_iff p = ground (
  arith,
  append-eq-nil_iff (overlaps (to_set_from [] p.allow) p.deny allow_list deny_list p.server)
      (overlaps (to_set_from [] p.deny) p.gated deny_list gated_list p.server),
  overlaps-nil_iff (to_set_from [] p.allow) p.deny allow_list deny_list p.server,
  overlaps-nil_iff (to_set_from [] p.deny) p.gated deny_list gated_list p.server,
  to_set_from-IsDisjoint_iff [] p.allow p.deny,
  to_set_from-IsDisjoint_iff [] p.deny p.gated,
)

-- What one server's policy has to satisfy, among the known servers.
pub record IsValidPolicy (known : List String) (p : GroupServerPolicy) : Type 0 where
  pub known_server : Elem p.server known
  pub distinct_allow : IsDistinct p.allow
  pub distinct_deny : IsDistinct p.deny
  pub distinct_gated : IsDistinct p.gated
  pub allow_deny : IsDisjoint p.allow p.deny
  pub deny_gated : IsDisjoint p.deny p.gated

server_errors-nil_iff :
    (known seen : List String) (p : GroupServerPolicy)
    → (server_errors known seen p ≡ []) ↔ ((¬ Elem p.server seen) × IsValidPolicy known p)
unfolding server_errors
server_errors-nil_iff known seen p = ground (
  arith,
  includes_iff seen p.server,
  includes_iff known p.server,
  duplicate_tools-nil_iff p.allow allow_list p.server,
  duplicate_tools-nil_iff p.deny deny_list p.server,
  duplicate_tools-nil_iff p.gated gated_list p.server,
  overlapping_tools-nil_iff p,
)

abbrev pub server_names : List GroupServerPolicy → List String
server_names = map (λ p. p.server)

errors_from-nil_iff :
    (known seen : List String) (servers : List GroupServerPolicy)
    → (errors_from known seen servers ≡ []) ↔ (
        IsDistinct (server_names servers)
        × IsDisjoint (server_names servers) seen
        × All (IsValidPolicy known) servers)
unfolding errors_from
errors_from-nil_iff known seen [] = ground arith
errors_from-nil_iff known seen (p ∷ ps) = ground (
  arith,
  append-eq-nil_iff (server_errors known seen p) (errors_from known (p.server ∷ seen) ps),
  server_errors-nil_iff known seen p,
  errors_from-nil_iff known (p.server ∷ seen) ps,
  IsDisjoint-cons_right p.server (server_names ps) seen,
)

-- A write is accepted exactly when no server is named twice, every server is known, no tool list
-- repeats a tool, and on each server no denied tool is also allowed or gated.
pub assert_valid_group_servers_iff :
    (servers : List GroupServerPolicy) (known : List String)
    → (assert_valid_group_servers servers known ≡ none)
      ↔ (IsDistinct (server_names servers) × All (IsValidPolicy known) servers)
unfolding assert_valid_group_servers
assert_valid_group_servers_iff servers known =
    ground
      (arith, errors_from-nil_iff known [] servers, IsDisjoint-nil_right (server_names servers))

-- In a group that passed the check a tool of the list `allow` of a server policy gets the vote
-- allow on that server, and a tool of its list `deny` the vote deny.
pub validated-vote :
    (name tool : String) (servers : List GroupServerPolicy) (known : List String)
    (p : GroupServerPolicy)
    → assert_valid_group_servers servers known ≡ none
    → Elem p servers
    → (Elem tool p.allow
        → vote (server_policy_for (record { name = name; servers = servers }) p.server) tool
          ≡ effect allow)
      × (Elem tool p.deny
          → vote (server_policy_for (record { name = name; servers = servers }) p.server) tool
            ≡ effect deny)
unfolding server_policy_for
validated-vote name tool servers known p ok listed =
    let (distinct, valid) = (assert_valid_group_servers_iff servers known).0 ok in
    let v = All-at (IsValidPolicy known) p servers valid listed in
    let found = find_key (λ q. q.server) servers p distinct listed in
    (
      (λ m. rw found (
          (vote-allow_iff p tool).1
            (All-at (λ t. ¬ Elem t p.deny) tool p.allow v.allow_deny m, inl m))),
      λ m. rw found ((vote-deny_iff p tool).1 (inl m)),
    )
