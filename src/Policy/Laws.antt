-- ===== src/Policy/Laws.antt =====
-- The evaluator of apps/torii/src/policy/utils/evaluate-policy.ts against its specification.
use keidai.Common.{
  String, ◌≡◌, refl, ◌↔◌, ↔_trans, ⊎_congr_left, ⊎_congr_right, ⊎_assoc, ◌⊎◌, inl, inr, true, false,
  Option, none, some, List, [], ◌∷◌, arith, includes_iff, any_of_Elem, Elem-of_Any, any_iff, All,
  Any, Elem, Option-cases,
}
use keidai.Policy.{
  PolicyEffect, allow, deny, GroupServerPolicy, GroupPolicySnapshot, AgentPrincipal, Vote, effect,
  abstain, Tally, allowed, server_policy_for, vote, definition, groups_of, tally_group, tally_votes,
  unknown_groups, evaluate_policy, gated_by, is_gated_tool_for_groups, group_grants_tool,
  is_tool_granted_by_any_group,
}
use keidai.Policy.Spec.{PolicyDenies, PolicyAllows, IsKnown, GroupDenies, GroupAllows, GroupGates}

pub vote-deny_iff :
    (p : GroupServerPolicy) (tool : String)
    → (vote (some p) tool ≡ effect deny) ↔ PolicyDenies p tool
unfolding vote
vote-deny_iff p tool = ground (arith, includes_iff p.deny tool, includes_iff p.allow tool)

pub vote-allow_iff :
    (p : GroupServerPolicy) (tool : String)
    → (vote (some p) tool ≡ effect allow) ↔ PolicyAllows p tool
unfolding vote
vote-allow_iff p tool = ground (arith, includes_iff p.deny tool, includes_iff p.allow tool)

module _ (groups : List GroupPolicySnapshot) (server tool : String) where
  -- What a looked-up group votes: nothing when the name is unknown.
  abbrev vote_for : Option GroupPolicySnapshot → Vote
  vote_for none = abstain
  vote_for (some group) = vote (server_policy_for group server) tool

  -- A vote of a looked-up group comes from a server policy that it has.
  abbrev Voted : Option GroupPolicySnapshot → PolicyEffect → Type 0
  Voted d e =
      (group : GroupPolicySnapshot) × (policy : GroupServerPolicy) × (d ≡ some group)
      × (server_policy_for group server ≡ some policy)
      × (vote (some policy) tool ≡ effect e)

  vote-Voted :
      (group : GroupPolicySnapshot) (o : Option GroupServerPolicy) (e : PolicyEffect)
      → server_policy_for group server ≡ o
      → vote o tool ≡ effect e
      → Voted (some group) e
  unfolding vote
  vote-Voted group none e _ h = cc
  vote-Voted group (some policy) e found h = (group, policy, refl, found, h)

  vote_for-Voted :
      (d : Option GroupPolicySnapshot) (e : PolicyEffect) → vote_for d ≡ effect e → Voted d e
  vote_for-Voted none e h = cc
  vote_for-Voted (some group) e h = vote-Voted group (server_policy_for group server) e refl h

  vote_for-deny_iff :
      (name : String)
      → (vote_for (definition groups name) ≡ effect deny) ↔ GroupDenies groups server tool name
  vote_for-deny_iff name = (
    (λ h.
        let (g, p, found, listed, v) = vote_for-Voted _ deny h in
        (g, p, found, listed, (vote-deny_iff p tool).0 v)),
    λ (g, p, found, listed, d). rw (found, listed) ((vote-deny_iff p tool).1 d),
  )

  vote_for-allow_iff :
      (name : String)
      → (vote_for (definition groups name) ≡ effect allow) ↔ GroupAllows groups server tool name
  vote_for-allow_iff name = (
    (λ h.
        let (g, p, found, listed, v) = vote_for-Voted _ allow h in
        (g, p, found, listed, (vote-allow_iff p tool).0 v)),
    λ (g, p, found, listed, d). rw (found, listed) ((vote-allow_iff p tool).1 d),
  )

  tally_group-any_deny :
      (t : Tally) (d : Option GroupPolicySnapshot)
      → ((tally_group server tool t d).any_deny ≡ true)
        ↔ ((t.any_deny ≡ true) ⊎ (vote_for d ≡ effect deny))
  unfolding tally_group
  tally_group-any_deny t none = ground arith
  tally_group-any_deny t (some group) = ground arith

  tally_group-any_allow :
      (t : Tally) (d : Option GroupPolicySnapshot)
      → ((tally_group server tool t d).any_allow ≡ true)
        ↔ ((t.any_allow ≡ true) ⊎ (vote_for d ≡ effect allow))
  unfolding tally_group
  tally_group-any_allow t none = ground arith
  tally_group-any_allow t (some group) = ground arith

  tally_votes-any_deny :
      (t : Tally) (names : List String)
      → ((tally_votes groups server tool t names).any_deny ≡ true)
        ↔ ((t.any_deny ≡ true) ⊎ Any (GroupDenies groups server tool) names)
  unfolding tally_votes
  tally_votes-any_deny t [] = ground arith
  tally_votes-any_deny t (name ∷ names) =
      ↔_trans (tally_votes-any_deny (tally_group server tool t (definition groups name)) names) (
        ↔_trans
          (⊎_congr_left (
            ↔_trans (tally_group-any_deny t (definition groups name))
              (⊎_congr_right (vote_for-deny_iff name))))
          ⊎_assoc)

  tally_votes-any_allow :
      (t : Tally) (names : List String)
      → ((tally_votes groups server tool t names).any_allow ≡ true)
        ↔ ((t.any_allow ≡ true) ⊎ Any (GroupAllows groups server tool) names)
  unfolding tally_votes
  tally_votes-any_allow t [] = ground arith
  tally_votes-any_allow t (name ∷ names) =
      ↔_trans (tally_votes-any_allow (tally_group server tool t (definition groups name)) names) (
        ↔_trans
          (⊎_congr_left (
            ↔_trans (tally_group-any_allow t (definition groups name))
              (⊎_congr_right (vote_for-allow_iff name))))
          ⊎_assoc)

unknown_groups-nil_iff :
    (groups : List GroupPolicySnapshot) (names : List String)
    → (unknown_groups groups names ≡ []) ↔ All (IsKnown groups) names
unknown_groups-nil_iff groups [] = ground arith
unknown_groups-nil_iff groups (name ∷ names) = ground (arith, unknown_groups-nil_iff groups names)

-- A call is allowed exactly when every group of the principal is defined, none of them denies the
-- tool on that server, and one of them allows it.
pub evaluate_policy-allowed_iff :
    (principal : Option AgentPrincipal) (groups : List GroupPolicySnapshot) (server tool : String)
    → ((evaluate_policy principal groups server tool).decision ≡ allowed) ↔ (
        All (IsKnown groups) (groups_of principal)
        × (¬ Any (GroupDenies groups server tool) (groups_of principal))
        × Any (GroupAllows groups server tool) (groups_of principal))
unfolding evaluate_policy
evaluate_policy-allowed_iff principal groups server tool = ground (
  arith,
  unknown_groups-nil_iff groups (groups_of principal),
  tally_votes-any_deny groups server tool (record { any_deny = false; any_allow = false })
      (groups_of principal),
  tally_votes-any_allow groups server tool (record { any_deny = false; any_allow = false })
      (groups_of principal),
)

pub gated_by_iff :
    (groups : List GroupPolicySnapshot) (server tool name : String)
    → (gated_by groups server tool name ≡ true) ↔ GroupGates groups server tool name
unfolding gated_by
gated_by_iff groups server tool name = (
  (λ h. elim (Option-cases (definition groups name)) [
    | inl missing ↦ ground (arith, missing)
    | inr (g, found) ↦ elim (Option-cases (server_policy_for g server)) [
      | inl missing ↦ ground (arith, found, missing)
      | inr (p, listed) ↦
          (g, p, found, listed, (includes_iff p.gated tool).0 (ground (arith, found, listed)))
    ]
  ]),
  λ (g, p, found, listed, e). ground (arith, found, listed, (includes_iff p.gated tool).1 e),
)

-- A tool needs approval for a principal exactly when one of the principal's defined groups lists it
-- as gated on that server; no principal, no gate.
is_gated_tool_for_groups_iff :
    (principal : Option AgentPrincipal) (groups : List GroupPolicySnapshot) (server tool : String)
    → (is_gated_tool_for_groups principal groups server tool ≡ true)
      ↔ Any (GroupGates groups server tool) (groups_of principal)
unfolding is_gated_tool_for_groups
is_gated_tool_for_groups_iff none groups server tool = ((λ h. cc), (λ h. absurd h))
is_gated_tool_for_groups_iff (some principal) groups server tool =
    any_iff (gated_by_iff groups server tool) principal.groups

definition-Elem :
    (groups : List GroupPolicySnapshot) (name : String) (group : GroupPolicySnapshot)
    → definition groups name ≡ some group
    → Elem group groups
unfolding definition
definition-Elem [] name group h = cc
definition-Elem (g ∷ gs) name group h = ground (arith, definition-Elem gs name group)

GroupAllows-granted :
    (groups : List GroupPolicySnapshot) (server tool name : String)
    → GroupAllows groups server tool name
    → is_tool_granted_by_any_group groups server tool ≡ true
unfolding is_tool_granted_by_any_group
GroupAllows-granted groups server tool name (g, p, found, listed, a) =
    any_of_Elem (λ g. group_grants_tool g server tool) g groups
      (definition-Elem groups name g found) (ground (arith, listed, (vote-allow_iff p tool).1 a))

-- An allowed call is in the catalog that the groups grant: what `evaluatePolicy` allows is granted
-- by some defined group.
pub allowed-granted :
    (principal : Option AgentPrincipal) (groups : List GroupPolicySnapshot) (server tool : String)
    → (evaluate_policy principal groups server tool).decision ≡ allowed
    → is_tool_granted_by_any_group groups server tool ≡ true
unfolding is_tool_granted_by_any_group
allowed-granted principal groups server tool h =
    let (name, _, a) =
      Elem-of_Any _ (groups_of principal)
        ((evaluate_policy-allowed_iff principal groups server tool).0 h).2 in
    GroupAllows-granted groups server tool name a
