-- ===== src/Service/Reviewing.antt =====
-- `MemoryService.review` of services/memory_service.py: a verdict is given once.
use kortex_memory.Prelude.{
  ℕ, ◌≡◌, refl, sym, ◌∙◌, ap, subst, Bool, true, false, Option, none, some, if◌then◌else◌,
}
use kortex_memory.Access.{Principal, can_write}
use kortex_memory.Types.{ReviewStatus, status_eq}
use kortex_memory.Audit.{reviewed_memory}
use kortex_memory.Memories.{Memory, find, replace_row}
use kortex_memory.Memories.Rows.{IsOrdered, found, find-replaced}
use kortex_memory.Memories.Queries.{get_by_public_id, by_public_id}
use kortex_memory.Memories.Writes.{set_review_status}
use kortex_memory.Service.Exec.{ok, Exec, access_denied, pure, ◌>>=◌}
use kortex_memory.Service.Exec.Laws.{raise_unless-ok, ok-injective, bind-ok}
use kortex_memory.Service.State.{State, Environment}
use kortex_memory.Service.Changing.{some-injective, nothing}
use kortex_memory.Service.Deletion.{audit-IsLogged}
use kortex_memory.Service.Refusals.{looked_up}
use kortex_memory.Service.Write.{acting_user}
use kortex_memory.Service.Methods.{
  flush, audit, event, resource_of, verdict, verdict_action, decide, review, review_found,
}

both : {b : Bool} → b ≡ true → b ≡ false → ⊥
both h k = cc (h, k)

module _ (env : Environment) (p : Principal) where
  -- what a review that returned `m'` did
  pub record IsReviewed (i : ℕ) (approve : Bool) (s : State) (m' : Memory) (s' : State)
      : Type 0 where
    pub old : Memory
    pub was_there : get_by_public_id p i s.memories ≡ some old
    pub permitted : can_write p (resource_of old old.sensitivity) ≡ true
    pub pending :
        status_eq old.review_status ReviewStatus.pending ≡ true
        → m'.review_status ≡ verdict env p approve
    pub settled : status_eq old.review_status ReviewStatus.pending ≡ false → (m' ≡ old) × (s' ≡ s)
    pub is_there : get_by_public_id p i s'.memories ≡ some m'

  decide-ok :
      (approve : Bool) (m m' : Memory) (s : State)
      → (decide env p approve m s).0 ≡ ok (some m')
      → (m' ≡ set_review_status s.now (verdict env p approve) (acting_user env p p.actor_kind) m)
        × ((decide env p approve m s).1.memories ≡ replace_row m' s.memories)
  unfolding ◌>>=◌ flush
  decide-ok approve m m' s h =
      let row : Memory =
        set_review_status s.now (verdict env p approve) (acting_user env p p.actor_kind) m in
      let v =
        event env p (verdict_action env p approve) row
          (reviewed_memory row.review_reason row.scope_id) in
      let s1 : State = (flush row s).1 in
      let first = bind-ok (audit env p v) (λ _. pure (some row)) s1 (some m') h in
      let same : row ≡ m' = some-injective (ok-injective (sym (ap (λ r. r.0) first.goes_on) ∙ h)) in
      (
        sym same,
        ap (λ r. r.1.memories) first.goes_on
            ∙ (audit-IsLogged env p v s1 first.returned).kept
            ∙ ap (λ x. replace_row x s.memories) same,
      )

  decided-IsReviewed :
      (i : ℕ) (approve : Bool) (m m' : Memory) (s : State)
      → IsOrdered 0 s.memories
      → get_by_public_id p i s.memories ≡ some m
      → can_write p (resource_of m m.sensitivity) ≡ true
      → status_eq m.review_status ReviewStatus.pending ≡ true
      → (decide env p approve m s).0 ≡ ok (some m')
      → IsReviewed i approve s m' (decide env p approve m s).1
  unfolding get_by_public_id set_review_status
  decided-IsReviewed i approve m m' s o e allowed waits h =
      let d = decide-ok approve m m' s h in
      let f = found (by_public_id p i) 0 s.memories o e in
      let passes : by_public_id p i m' ≡ true = ap (by_public_id p i) d.0 ∙ f.passes in
      record {
        old = m;
        was_there = e;
        permitted = allowed;
        pending = λ _. ap (λ r. r.review_status) d.0;
        settled = λ over. absurd (both waits over);
        is_there =
            ap (find (by_public_id p i)) d.1
            ∙ find-replaced (by_public_id p i) s.memories m m' f (ap (λ r. r.id) d.0) passes;
      }

  settled-IsReviewed :
      (i : ℕ) (approve : Bool) (m m' : Memory) (s : State)
      → get_by_public_id p i s.memories ≡ some m
      → can_write p (resource_of m m.sensitivity) ≡ true
      → status_eq m.review_status ReviewStatus.pending ≡ false
      → some m ≡ some m'
      → IsReviewed i approve s m' s
  settled-IsReviewed i approve m m' s e allowed over h = record {
    old = m;
    was_there = e;
    permitted = allowed;
    pending = λ waits. absurd (both waits over);
    settled = λ _. (sym (some-injective h), refl);
    is_there = e ∙ h;
  }

  ruled :
      (i : ℕ) (approve b : Bool) (m m' : Memory) (s : State)
      → IsOrdered 0 s.memories
      → get_by_public_id p i s.memories ≡ some m
      → can_write p (resource_of m m.sensitivity) ≡ true
      → status_eq m.review_status ReviewStatus.pending ≡ b
      → ((if b then decide env p approve m else pure (some m)) s).0 ≡ ok (some m')
      → IsReviewed i approve s m' ((if b then decide env p approve m else pure (some m)) s).1
  ruled i approve true m m' s o e allowed t h = decided-IsReviewed i approve m m' s o e allowed t h
  ruled i approve false m m' s o e allowed t h =
      settled-IsReviewed i approve m m' s e allowed t (ok-injective h)

  review_found-IsReviewed :
      (i : ℕ) (approve : Bool) (o : Option Memory) (m' : Memory) (s : State)
      → IsOrdered 0 s.memories
      → get_by_public_id p i s.memories ≡ o
      → (review_found env p approve o s).0 ≡ ok (some m')
      → IsReviewed i approve s m' (review_found env p approve o s).1
  review_found-IsReviewed i approve none m' s o e h = absurd (nothing h)
  review_found-IsReviewed i approve (some m) m' s o e h =
      let b = status_eq m.review_status ReviewStatus.pending in
      let rule : Exec State (Option Memory) = if b then decide env p approve m else pure (some m) in
      let allowed =
        raise_unless-ok (can_write p (resource_of m m.sensitivity)) access_denied rule s (some m')
          h in
      subst (λ r. IsReviewed i approve s m' r.1) (sym allowed.1)
        (ruled i approve b m m' s o e allowed.0 refl (sym (ap (λ r. r.0) allowed.1) ∙ h))

  -- If the service's `review` returns a memory, in a state whose rows stand in the order of their ids,
  -- then the caller may write the row that was found; a row that was pending now has the status of the
  -- verdict, and a row that had a verdict is returned as it was, with nothing changed; and what was
  -- returned is what the caller finds under the public id afterwards.
  pub review-IsReviewed :
      (i : ℕ) (approve : Bool) (s : State) (m' : Memory)
      → IsOrdered 0 s.memories
      → (review env p i approve s).0 ≡ ok (some m')
      → IsReviewed i approve s m' (review env p i approve s).1
  unfolding review
  review-IsReviewed i approve s m' o h =
      let e = looked_up env p i (review_found env p approve) s (some m') h in
      subst (λ r. IsReviewed i approve s m' r.1) (sym e)
        (review_found-IsReviewed i approve (get_by_public_id p i s.memories) m' s o refl
          (sym (ap (λ r. r.0) e) ∙ h))
