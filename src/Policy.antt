-- ===== src/Policy.antt =====
-- apps/torii/src/policy: group policies, their evaluation (utils/evaluate-policy.ts) and their
-- validation on a write (utils/assert-valid-group-servers.ts, in `Policy.Validate`).
pub mod Spec
pub mod Laws
pub mod Validate
mod Examples
use keidai.Common.{
  String, str_eq, Bool, true, false, ◌||◌, not, Option, none, some, List, [], ◌∷◌, if◌then◌else◌,
  find, filter, any, includes,
}

-- types/group-policy.ts
pub data PolicyEffect : Type 0 where
  allow deny : PolicyEffect

pub record GroupServerPolicy : Type 0 where
  pub server : String
  pub default : PolicyEffect
  pub allow : List String
  pub deny : List String
  pub gated : List String

pub record GroupPolicySnapshot : Type 0 where
  pub name : String
  pub servers : List GroupServerPolicy

-- packages/shared/src/agent-identity.ts; `bearerId` is not read by the modelled code.
pub record AgentPrincipal : Type 0 where
  pub agent_id : String
  pub owner_id : String
  pub groups : List String

-- `PolicyEffect | "abstain"`
pub data Vote : Type 0 where
  effect : PolicyEffect → Vote
  abstain : Vote

unfoldable pub server_policy_for : GroupPolicySnapshot → String → Option GroupServerPolicy
server_policy_for group server = find (λ policy. str_eq policy.server server) group.servers

unfoldable pub vote : Option GroupServerPolicy → String → Vote
vote none tool = abstain
vote (some policy) tool =
    if includes policy.deny tool
    then effect deny
    else if includes policy.allow tool
    then effect allow
    else effect policy.default

abbrev pub is_allow : Vote → Bool
is_allow (effect allow) = true
is_allow _ = false

abbrev pub is_deny : Vote → Bool
is_deny (effect deny) = true
is_deny _ = false

unfoldable pub group_grants_tool : GroupPolicySnapshot → String → String → Bool
unfolding vote server_policy_for
group_grants_tool group server tool = is_allow (vote (server_policy_for group server) tool)

-- `new Map(groups.map((group) => [group.name, group])).get(name)`: of two groups with one name the
-- later one is kept.
unfoldable pub definition : List GroupPolicySnapshot → String → Option GroupPolicySnapshot
definition [] name = none
definition (group ∷ groups) name = elim (definition groups name) [
  | some later ↦ some later
  | none ↦ if str_eq group.name name then some group else none
]

abbrev pub is_some {ℓ} : {A : Type ℓ} → Option A → Bool
is_some none = false
is_some (some _) = true

-- `principal?.groups ?? []`
abbrev pub groups_of : Option AgentPrincipal → List String
groups_of none = []
groups_of (some principal) = principal.groups

pub data PolicyDecision : Type 0 where
  allowed denied : PolicyDecision

-- `reason` of a denial: the unknown names that the text joins, or "policy denied".
pub data Reason : Type 0 where
  unknown_group : List String → Reason
  policy_denied : Reason

pub record PolicyEvaluation : Type 0 where
  pub decision : PolicyDecision
  pub reason : Option Reason

-- One round of the loop of `evaluatePolicy` over the two flags.
pub record Tally : Type 0 where
  pub any_deny : Bool
  pub any_allow : Bool

unfoldable pub count_vote : Tally → Vote → Tally
count_vote t (effect deny) = record t { any_deny = true }
count_vote t (effect allow) = record t { any_allow = true }
count_vote t abstain = t

-- The body of that loop on a looked-up group; an unknown one is passed over.
unfoldable pub tally_group : String → String → Tally → Option GroupPolicySnapshot → Tally
unfolding count_vote
tally_group server tool t none = t
tally_group server tool t (some group) = count_vote t (vote (server_policy_for group server) tool)

unfoldable pub tally_votes :
    List GroupPolicySnapshot → String → String → Tally → List String → Tally
unfolding tally_group
tally_votes groups server tool t [] = t
tally_votes groups server tool t (name ∷ names) =
    tally_votes groups server tool (tally_group server tool t (definition groups name)) names

abbrev decide_tally : Tally → PolicyEvaluation
decide_tally t =
    if t.any_deny
    then record { decision = denied; reason = some policy_denied }
    else if t.any_allow
    then record { decision = allowed; reason = none }
    else record { decision = denied; reason = some policy_denied }

abbrev pub unknown_groups : List GroupPolicySnapshot → List String → List String
unknown_groups groups names = filter (λ name. not (is_some (definition groups name))) names

unfoldable pub evaluate_policy :
    Option AgentPrincipal → List GroupPolicySnapshot → String → String → PolicyEvaluation
unfolding tally_votes
evaluate_policy principal groups server tool = elim (unknown_groups groups (groups_of principal)) [
  | unknown ∷ more ↦ record { decision = denied; reason = some (unknown_group (unknown ∷ more)) }
  | [] ↦ decide_tally (
      tally_votes groups server tool (record { any_deny = false; any_allow = false })
        (groups_of principal))
]

unfoldable pub is_tool_granted_by_any_group : List GroupPolicySnapshot → String → String → Bool
unfolding group_grants_tool
is_tool_granted_by_any_group groups server tool =
    any (λ group. group_grants_tool group server tool) groups

-- `policy?.gated.includes(tool)` for one group's name.
unfoldable pub gated_by : List GroupPolicySnapshot → String → String → String → Bool
gated_by groups server tool name = elim (definition groups name) [
  | none ↦ false
  | some group ↦ elim (server_policy_for group server) [
    | none ↦ false
    | some policy ↦ includes policy.gated tool
  ]
]

unfoldable pub is_gated_tool_for_groups :
    Option AgentPrincipal → List GroupPolicySnapshot → String → String → Bool
unfolding gated_by
is_gated_tool_for_groups none groups server tool = false
is_gated_tool_for_groups (some principal) groups server tool =
    any (gated_by groups server tool) principal.groups
