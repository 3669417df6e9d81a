-- ===== src/Service/Exec.antt =====
-- Methods that change the state of a service and may raise.
pub mod Laws
use kortex_memory.Prelude.{Bool, true, false, if◌then◌else◌}

-- the exceptions that the methods of services/memory_service.py raise, and the violation of the
-- primary key of a link
pub data Error : Type 0 where
  access_denied quota_exceeded embedding_failed no_audit_org unknown_action duplicate_link : Error

pub data Result {ℓ} (A : Type ℓ) : Type ℓ where
  ok : A → Result A
  err : Error → Result A

abbrev pub Exec : Type 0 → Type 0 → Type 0
Exec S A = S → Result A × S

module _ {S A : Type 0} where
  abbrev pub pure : A → Exec S A
  pure a s = (ok a, s)

  abbrev pub raise : Error → Exec S A
  raise e s = (err e, s)

  abbrev pub gets : (S → A) → Exec S A
  gets f s = (ok (f s), s)

abbrev pub modify : {S : Type 0} → (S → S) → Exec S (Unit {0})
modify f s = (ok tt, f s)

abbrev pub raise_unless : {S : Type 0} → Bool → Error → Exec S (Unit {0})
raise_unless b e s = ((if b then ok tt else err e), s)

module _ {S A B : Type 0} where
  abbrev pub continue : Result A → (A → Exec S B) → Exec S B
  continue (ok a) f s = f a s
  continue (err e) f s = (err e, s)

  infixl 5 ◌>>=◌ ◌>>◌
  unfoldable pub ◌>>=◌ : Exec S A → (A → Exec S B) → Exec S B
  ◌>>=◌ m f s = continue (m s).0 f (m s).1

  abbrev pub ◌>>◌ : Exec S A → Exec S B → Exec S B
  m >> k = m >>= λ _. k
