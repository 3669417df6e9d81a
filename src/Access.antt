-- ===== src/Access.antt =====
-- packages/kortex-core/src/kortex_core/security/principal.py (who makes a request) and
-- services/access_control.py beside it (what a role may do at which sensitivity).
-- The context variable that carries the principal of a request is not modelled: the principal is an
-- argument. The text of a denial is not modelled either.
mod Scopes
pub mod Laws
pub mod Tests
unfoldable pub use Scopes.{scope_eq, lookup_role, set_role}
pub use Scopes.{Roles, ScopeRef, scope_eq_iff, lookup_role-set_role}
use text.Mathlib.Text.{◌==◌ as str_eq}
use Prim.Native.String.{String}
use kortex_memory.Prelude.{
  ℕ, Bool, true, false, Option, none, some, List, [], ◌∷◌, keep, any, leb, if◌then◌else◌, ◌||◌,
}
use kortex_memory.Types.{ScopeType, Role, Sensitivity, ActorKind, scope_type_eq}

pub record Principal : Type 0 where
  pub actor_id : ℕ
  pub actor_kind : ActorKind
  pub org_id : ℕ
  pub scope : Option ScopeRef
  pub roles : Roles
  pub key_scopes : List String
  pub max_sensitivity : Sensitivity
  pub is_superuser : Bool

unfoldable pub role_for : Principal → ScopeRef → Option Role
unfolding lookup_role
role_for p s = lookup_role s p.roles

-- `not self.key_scopes or name in self.key_scopes`
unfoldable pub has_key_scope : Principal → String → Bool
has_key_scope p name = elim p.key_scopes [ [] ↦ true | k ∷ ks ↦ any (str_eq name) (k ∷ ks) ]

unfoldable pub with_role_added : Principal → ScopeRef → Role → Principal
with_role_added p s r = record p { roles = set_role s r p.roles }

abbrev pub role_rank : Role → ℕ
role_rank Role.viewer = 1
role_rank Role.member = 2
role_rank Role.admin = 3
role_rank Role.owner = 4

abbrev pub sensitivity_rank : Sensitivity → ℕ
sensitivity_rank Sensitivity.public = 1
sensitivity_rank Sensitivity.internal = 2
sensitivity_rank Sensitivity.confidential = 3
sensitivity_rank Sensitivity.secret = 4

-- `_READ_SENSITIVITY_BY_ROLE.get(role)`
abbrev pub read_limit : Role → Option Sensitivity
read_limit Role.viewer = some Sensitivity.confidential
read_limit Role.member = some Sensitivity.confidential
read_limit Role.admin = some Sensitivity.secret
read_limit Role.owner = some Sensitivity.secret

-- `_WRITE_SENSITIVITY_BY_ROLE.get(role)`: a viewer has no entry
abbrev pub write_limit : Role → Option Sensitivity
write_limit Role.viewer = none
write_limit Role.member = some Sensitivity.confidential
write_limit Role.admin = some Sensitivity.secret
write_limit Role.owner = some Sensitivity.secret

pub record ResourceRef : Type 0 where
  pub scope : ScopeRef
  pub sensitivity : Sensitivity

-- `AccessControl.role_for`
unfoldable pub effective_role : Principal → ScopeRef → Option Role
unfolding role_for
effective_role p s = if p.is_superuser then some Role.owner else role_for p s

abbrev within : Sensitivity → Option Sensitivity → Bool
within s none = false
within s (some limit) = leb (sensitivity_rank s) (sensitivity_rank limit)

abbrev by_role : Option Role → (Role → Bool) → Bool
by_role none test = false
by_role (some r) test = test r

unfoldable pub can_read : Principal → ResourceRef → Bool
unfolding effective_role
can_read p r =
    if p.is_superuser
    then true
    else by_role (effective_role p r.scope) (λ role. within r.sensitivity (read_limit role))

unfoldable pub can_write : Principal → ResourceRef → Bool
unfolding effective_role
can_write p r =
    if p.is_superuser
    then true
    else by_role (effective_role p r.scope) (λ role. within r.sensitivity (write_limit role))

unfoldable pub can_admin : Principal → ScopeRef → Bool
unfolding effective_role
can_admin p s =
    if p.is_superuser
    then true
    else by_role (effective_role p s) (λ role. leb (role_rank Role.admin) (role_rank role))

abbrev is_owner : Role → Bool
is_owner Role.owner = true
is_owner Role.admin = false
is_owner Role.member = false
is_owner Role.viewer = false

unfoldable pub can_own : Principal → ScopeRef → Bool
unfolding effective_role
can_own p s = if p.is_superuser then true else by_role (effective_role p s) is_owner

unfoldable pub is_admin_anywhere : Principal → Bool
is_admin_anywhere p =
    if p.is_superuser then true else any (λ e. leb (role_rank Role.admin) (role_rank e.1)) p.roles

abbrev of_types : Option (List ScopeType) → ScopeRef → Bool
of_types none s = true
of_types (some types) s = any (scope_type_eq s.type) types

abbrev keys : Roles → List ScopeRef
keys [] = []
keys ((s, r) ∷ rest) = s ∷ keys rest

-- A superuser gets the empty list, which its callers read as "all".
unfoldable pub visible_scopes : Principal → Option (List ScopeType) → List ScopeRef
visible_scopes p types = if p.is_superuser then [] else keep (of_types types) (keys p.roles)
