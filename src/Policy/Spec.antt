-- ===== src/Policy/Spec.antt =====
-- What a policy decision promises, stated without the evaluator's loops and tests.
use keidai.Common.{String, ◌≡◌, ◌⊎◌, some, List, Elem}
use keidai.Policy.{
  GroupServerPolicy, GroupPolicySnapshot, allow, deny, definition, server_policy_for,
}

-- A server's policy against a tool: the deny list first, then the allow list, then the default.
abbrev pub PolicyDenies : GroupServerPolicy → String → Type 0
PolicyDenies policy tool =
    Elem tool policy.deny ⊎ ((¬ Elem tool policy.allow) × (policy.default ≡ deny))

abbrev pub PolicyAllows : GroupServerPolicy → String → Type 0
PolicyAllows policy tool =
    (¬ Elem tool policy.deny) × (Elem tool policy.allow ⊎ (policy.default ≡ allow))

abbrev pub IsKnown : List GroupPolicySnapshot → String → Type 0
IsKnown groups name = (group : GroupPolicySnapshot) × (definition groups name ≡ some group)

module _ (groups : List GroupPolicySnapshot) (server tool : String) where
  -- The group of this name has a policy for the server, which denies the tool.
  abbrev pub GroupDenies : String → Type 0
  GroupDenies name =
      (group : GroupPolicySnapshot) × (policy : GroupServerPolicy) × (definition groups name
        ≡ some group)
      × (server_policy_for group server ≡ some policy)
      × PolicyDenies policy tool

  abbrev pub GroupAllows : String → Type 0
  GroupAllows name =
      (group : GroupPolicySnapshot) × (policy : GroupServerPolicy) × (definition groups name
        ≡ some group)
      × (server_policy_for group server ≡ some policy)
      × PolicyAllows policy tool

  -- The group of this name lists the tool as gated.
  abbrev pub GroupGates : String → Type 0
  GroupGates name =
      (group : GroupPolicySnapshot) × (policy : GroupServerPolicy) × (definition groups name
        ≡ some group)
      × (server_policy_for group server ≡ some policy)
      × Elem tool policy.gated
