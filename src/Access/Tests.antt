-- ===== src/Access/Tests.antt =====
-- Runs of the access policy.
use kortex_memory.Prelude.{true, false, none, [], ◌∷◌, ◌≡◌, ◌≢◌, ap, arith, refl}
use kortex_memory.Types.{ScopeType, Role, Sensitivity, ActorKind}
use kortex_memory.Access.{Principal, ScopeRef, has_key_scope}

abbrev alpha : ScopeRef
alpha = record { type = ScopeType.project; id = 7 }

abbrev beta : ScopeRef
beta = record { type = ScopeType.workspace; id = 7 }

abbrev member : Principal
member = record {
  actor_id = 1;
  actor_kind = ActorKind.user;
  org_id = 1;
  scope = none;
  roles = (alpha, Role.member) ∷ [];
  key_scopes = [];
  max_sensitivity = Sensitivity.confidential;
  is_superuser = false;
}

alpha≢beta : beta ≢ alpha
alpha≢beta e = ground (arith, ap (λ (s : ScopeRef). s.type) e)

-- A key without scopes, as a user has, passes every scope test; another key needs the name.
has_key_scope_runs :
    (has_key_scope member "write:memory" ≡ true)
    × (has_key_scope (record member { key_scopes = "read:memory" ∷ [] }) "write:memory" ≡ false)
unfolding has_key_scope
has_key_scope_runs = (refl, refl)
