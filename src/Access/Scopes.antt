-- ===== src/Access/Scopes.antt =====
-- `ScopeRef` of security/principal.py, and the dict from scopes to roles.
use kortex_memory.Prelude.{
  ℕ, Bool, true, Option, none, some, List, [], ◌∷◌, ◌≡◌, refl, ◌↔◌, ◌==◌, ◌&&◌, arith,
  if◌then◌else◌,
}
use kortex_memory.Types.{ScopeType, Role, scope_type_eq}

pub record ScopeRef : Type 0 where
  pub type : ScopeType
  pub id : ℕ

unfoldable pub scope_eq : ScopeRef → ScopeRef → Bool
scope_eq a b = scope_type_eq a.type b.type && a.id == b.id

pub scope_eq_iff : (a b : ScopeRef) → (scope_eq a b ≡ true) ↔ (a ≡ b)
unfolding scope_eq
scope_eq_iff a b = ground arith

abbrev pub Roles : Type 0
Roles = List (ScopeRef × Role)

-- `roles.get(scope)`
unfoldable pub lookup_role : ScopeRef → Roles → Option Role
lookup_role s [] = none
lookup_role s ((t, r) ∷ rest) = if scope_eq s t then some r else lookup_role s rest

-- `roles[scope] = role`
unfoldable pub set_role : ScopeRef → Role → Roles → Roles
set_role s r [] = (s, r) ∷ []
set_role s r ((t, q) ∷ rest) = if scope_eq s t then (t, r) ∷ rest else (t, q) ∷ set_role s r rest

pub lookup_role-set_role :
    (s t : ScopeRef) (r : Role) (m : Roles)
    → lookup_role t (set_role s r m) ≡ (if scope_eq t s then some r else lookup_role t m)
unfolding lookup_role set_role
lookup_role-set_role s t r [] = refl
lookup_role-set_role s t r ((u, q) ∷ rest) = ground (
  arith,
  scope_eq_iff s u,
  scope_eq_iff t u,
  scope_eq_iff t s,
  scope_eq_iff s t,
  lookup_role-set_role s t r rest,
)
