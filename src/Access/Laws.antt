-- ===== src/Access/Laws.antt =====
-- What the policy of services/access_control.py guarantees, whatever the roles are.
use kortex_memory.Prelude.{true, false, ◌≡◌, ◌≢◌, ◌≤◌, some, if◌then◌else◌, arith}
use kortex_memory.Types.{Role, Sensitivity}
use kortex_memory.Access.{
  Principal, ScopeRef, scope_eq, scope_eq_iff, ResourceRef, sensitivity_rank, effective_role,
  with_role_added, can_read, can_write, can_admin, can_own, lookup_role-set_role,
}

-- Whoever may write a resource may read every resource of its scope that is at most as sensitive, and
-- may write every one of those too.
pub can_write_down :
    (p : Principal) (s : ScopeRef) (hi lo : Sensitivity)
    → can_write p (record { scope = s; sensitivity = hi }) ≡ true
    → sensitivity_rank lo ≤ sensitivity_rank hi
    → (can_read p (record { scope = s; sensitivity = lo }) ≡ true)
      × (can_write p (record { scope = s; sensitivity = lo }) ≡ true)
unfolding can_write can_read
can_write_down p s hi lo h le = ground arith

-- Secret resources of a scope may be read by exactly the principals who administer the scope, and
-- written by exactly the same.
pub secret_for_admins :
    (p : Principal) (s : ScopeRef)
    → (can_read p (record { scope = s; sensitivity = Sensitivity.secret }) ≡ can_admin p s)
      × (can_write p (record { scope = s; sensitivity = Sensitivity.secret }) ≡ can_admin p s)
unfolding can_read can_write can_admin
secret_for_admins p s = (ground arith, ground arith)

-- Owning a scope includes administering it, and administering it includes writing there at every
-- sensitivity.
pub can_own-can_admin :
    (p : Principal) (s : ScopeRef)
    → (can_own p s ≡ true → can_admin p s ≡ true)
      × ((x : Sensitivity)
          → can_admin p s ≡ true
          → can_write p (record { scope = s; sensitivity = x }) ≡ true)
unfolding can_own can_admin can_write
can_own-can_admin p s = (λ h. ground arith, λ x h. ground arith)

-- the role that counts, after a role was added
pub effective_role-with_role_added :
    (p : Principal) (s t : ScopeRef) (r : Role)
    → p.is_superuser ≡ false
    → effective_role (with_role_added p s r) t
      ≡ (if scope_eq t s then some r else effective_role p t)
unfolding effective_role with_role_added
effective_role-with_role_added p s t r h = ground (arith, lookup_role-set_role s t r p.roles)

-- A role added on one scope changes no decision about another scope.
pub with_role_added_elsewhere :
    (p : Principal) (s : ScopeRef) (r : Role) (x : ResourceRef)
    → x.scope ≢ s
    → (can_read (with_role_added p s r) x ≡ can_read p x)
      × (can_write (with_role_added p s r) x ≡ can_write p x)
      × (can_admin (with_role_added p s r) x.scope ≡ can_admin p x.scope)
      × (can_own (with_role_added p s r) x.scope ≡ can_own p x.scope)
unfolding can_read can_write can_admin can_own with_role_added
with_role_added_elsewhere p s r x ne = (
  ground (arith, scope_eq_iff x.scope s, lookup_role-set_role s x.scope r p.roles),
  ground (arith, scope_eq_iff x.scope s, lookup_role-set_role s x.scope r p.roles),
  ground (arith, scope_eq_iff x.scope s, lookup_role-set_role s x.scope r p.roles),
  ground (arith, scope_eq_iff x.scope s, lookup_role-set_role s x.scope r p.roles),
)
