-- ===== src/Policy/Examples.antt =====
-- Policies at concrete groups: tests, and the theorems at inputs that meet their hypotheses.
use keidai.Common.{◌≡◌, refl, ◌↔◌, none, some, List, [], ◌∷◌, All, Any, IsDistinct}
use keidai.Policy.{
  GroupServerPolicy, GroupPolicySnapshot, AgentPrincipal, allow, deny, definition, allowed, denied,
  groups_of, evaluate_policy, server_policy_for, vote,
}
use keidai.Policy.Spec.{IsKnown, GroupDenies, GroupAllows}
use keidai.Policy.Laws.{evaluate_policy-allowed_iff}
use keidai.Policy.Validate.{assert_valid_group_servers}
use keidai.Policy.Validate.Laws.{assert_valid_group_servers_iff, server_names, IsValidPolicy}

abbrev mail_policy : GroupServerPolicy
mail_policy = record {
  server = "mail";
  default = deny;
  allow = "read" ∷ "send" ∷ [];
  deny = "purge" ∷ [];
  gated = "send" ∷ [];
}

abbrev agents : GroupPolicySnapshot
agents = record { name = "agents"; servers = mail_policy ∷ [] }

abbrev open_mail : GroupServerPolicy
open_mail = record { server = "mail"; default = allow; allow = []; deny = "send" ∷ []; gated = [] }

abbrev readers : GroupPolicySnapshot
readers = record { name = "readers"; servers = open_mail ∷ [] }

abbrev clerk : AgentPrincipal
clerk = record { agent_id = "a1"; owner_id = "o1"; groups = "agents" ∷ [] }

abbrev reader : AgentPrincipal
reader = record { agent_id = "a2"; owner_id = "o1"; groups = "agents" ∷ "readers" ∷ [] }

abbrev stranger : AgentPrincipal
stranger = record { agent_id = "a3"; owner_id = "o1"; groups = "agents" ∷ "ghosts" ∷ [] }

abbrev all_groups : List GroupPolicySnapshot
all_groups = agents ∷ readers ∷ []

clerk_sends : (evaluate_policy (some clerk) all_groups "mail" "send").decision ≡ allowed
unfolding evaluate_policy definition vote server_policy_for
clerk_sends = refl

-- A deny of one group wins over another's allow.
reader_may_not_send : (evaluate_policy (some reader) all_groups "mail" "send").decision ≡ denied
unfolding evaluate_policy definition vote server_policy_for
reader_may_not_send = refl

stranger_may_not_read : (evaluate_policy (some stranger) all_groups "mail" "read").decision ≡ denied
unfolding evaluate_policy definition
stranger_may_not_read = refl

evaluate_policy-allowed_iff_example :
    ((evaluate_policy (some reader) all_groups "mail" "read").decision ≡ allowed) ↔ (
      All (IsKnown all_groups) (groups_of (some reader))
      × (¬ Any (GroupDenies all_groups "mail" "read") (groups_of (some reader)))
      × Any (GroupAllows all_groups "mail" "read") (groups_of (some reader)))
evaluate_policy-allowed_iff_example =
    evaluate_policy-allowed_iff (some reader) all_groups "mail" "read"

mail_valid : assert_valid_group_servers (mail_policy ∷ []) ("mail" ∷ []) ≡ none
unfolding assert_valid_group_servers
mail_valid = refl

assert_valid_group_servers_iff_example :
    (assert_valid_group_servers (mail_policy ∷ open_mail ∷ []) ("mail" ∷ []) ≡ none) ↔ (
      IsDistinct (server_names (mail_policy ∷ open_mail ∷ []))
      × All (IsValidPolicy ("mail" ∷ [])) (mail_policy ∷ open_mail ∷ []))
assert_valid_group_servers_iff_example =
    assert_valid_group_servers_iff (mail_policy ∷ open_mail ∷ []) ("mail" ∷ [])
