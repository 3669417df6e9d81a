-- ===== src/Service/Exec/Laws.antt =====
-- How a chain of steps that returned came to return.
use kortex_memory.Prelude.{◌≡◌, refl, Bool, true, false}
use kortex_memory.Service.Exec.{Error, Result, ok, err, Exec, raise_unless, continue, ◌>>=◌, ◌>>◌}

pub ok-injective : {A : Type 0} {x y : A} → ok x ≡ ok y → x ≡ y
ok-injective h = cc h

module _ {S A : Type 0} where
  pub raise_unless-ok :
      (b : Bool) (e : Error) (k : Exec S A) (s : S) (a : A)
      → ((raise_unless b e >> k) s).0 ≡ ok a
      → (b ≡ true) × ((raise_unless b e >> k) s ≡ k s)
  unfolding ◌>>=◌
  raise_unless-ok true e k s a h = (refl, refl)
  raise_unless-ok false e k s a h = absurd cc h

  pub raise_unless-passed :
      (b : Bool) (e : Error) (k : Exec S A) (s : S) → b ≡ true → (raise_unless b e >> k) s ≡ k s
  unfolding ◌>>=◌
  raise_unless-passed true e k s h = refl
  raise_unless-passed false e k s h = absurd cc h

  pub raise_unless-raised :
      (b : Bool) (e : Error) (k : Exec S A) (s : S)
      → b ≡ false
      → (raise_unless b e >> k) s ≡ (err e, s)
  unfolding ◌>>=◌
  raise_unless-raised true e k s h = absurd cc h
  raise_unless-raised false e k s h = refl

module _ {S A B : Type 0} where
  -- the first step of a chain that returned
  pub record First (m : Exec S A) (f : A → Exec S B) (s : S) : Type 0 where
    pub value : A
    pub returned : (m s).0 ≡ ok value
    pub goes_on : (m >>= f) s ≡ f value (m s).1

  continue-ok :
      (r : Result A) (f : A → Exec S B) (s : S) (b : B)
      → (continue r f s).0 ≡ ok b
      → (a : A) × ((r ≡ ok a) × (continue r f s ≡ f a s))
  continue-ok (ok a) f s b h = (a, (refl, refl))
  continue-ok (err e) f s b h = absurd cc h

  pub bind-ok :
      (m : Exec S A) (f : A → Exec S B) (s : S) (b : B) → ((m >>= f) s).0 ≡ ok b → First m f s
  unfolding ◌>>=◌
  bind-ok m f s b h =
      let r = continue-ok (m s).0 f (m s).1 b h in
      record { value = r.0; returned = r.1.0; goes_on = r.1.1 }

-- a computation after which `P` holds again
pub record Preserves {S A : Type 0} (P : S → Type 0) (m : Exec S A) (s : S) : Type 0 where
  pub kept : P s → P (m s).1

module _ {S A : Type 0} (P : S → Type 0) where
  pub raise_unless-Preserves :
      (b : Bool) (e : Error) (k : Exec S A) (s : S)
      → Preserves P k s
      → Preserves P (raise_unless b e >> k) s
  unfolding ◌>>=◌
  raise_unless-Preserves true e k s h = record { kept = h.kept }
  raise_unless-Preserves false e k s h = record { kept = λ x. x }

module _ {S A B : Type 0} (P : S → Type 0) where
  continue-kept :
      (r : Result A) (f : A → Exec S B) (s : S)
      → P s
      → ((a : A) → Preserves P (f a) s)
      → P (continue r f s).1
  continue-kept (ok a) f s h k = (k a).kept h
  continue-kept (err e) f s h k = h

  pub bind-Preserves :
      (m : Exec S A) (f : A → Exec S B) (s : S)
      → Preserves P m s
      → ((a : A) → Preserves P (f a) (m s).1)
      → Preserves P (m >>= f) s
  unfolding ◌>>=◌
  bind-Preserves m f s h k = record { kept = λ x. continue-kept (m s).0 f (m s).1 (h.kept x) k }
