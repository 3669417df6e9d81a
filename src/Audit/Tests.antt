-- ===== src/Audit/Tests.antt =====
-- Runs of the audit log, with a small hash in the place of SHA-256.
use kortex_memory.Prelude.{
  ℕ, ◌+◌, ◌≡◌, ◌≢◌, refl, true, none, some, [], ◌∷◌, ◌++◌, map, ◌↔◌, Text, All, arith,
}
use kortex_memory.Types.{ActorKind}
use kortex_memory.Audit.{
  AuditLog, purge_before, AuditAction, no_details, genesis, Payload, Table, Event, Context, digest,
  payload, of_org, head, append, new_entry, entry_of,
}
use kortex_memory.Audit.Verify.{status, start, verify, walk}
use kortex_memory.Audit.Pages.{verify-walk}
use kortex_memory.Audit.Chain.{IsChained, Linked, anchor_of, verify-Linked}
use kortex_memory.Audit.Segments.{contents, verify-segment, head-contents}
use kortex_memory.Audit.Purging.{verify-purge_before}
use kortex_memory.Audit.Appending.{verify-append}

abbrev small_hash : Payload → Text
small_hash p = (p.created_at + 1) ∷ p.prev_hash

small_hash-solid : (p : Payload) → small_hash p ≢ []
small_hash-solid p q = cc q

abbrev deletion : Event
deletion = record {
  actor_kind = ActorKind.user;
  actor_id = some 4;
  action = AuditAction.memory_deleted;
  target_type = none;
  target_id = some 9;
  metadata = no_details;
  ip = none;
  user_agent = none;
  org_id = none;
}

abbrev at : ℕ → ℕ → ℕ → Context
at id now org = record {
  next_id = id;
  now = now;
  origin_ip = none;
  origin_agent = none;
  principal_org = some org;
}

-- two entries of org 1 and one of org 2; `renumbered` is the same log under other ids
abbrev log_from : ℕ → Table
log_from i =
    let a = new_entry small_hash (at i 10 1) deletion 1 [] in
    let b = new_entry small_hash (at (i + 1) 20 2) deletion 2 (a ∷ []) in
    let c = new_entry small_hash (at (i + 2) 30 1) deletion 1 (a ∷ b ∷ []) in a ∷ b ∷ c ∷ []

verify_runs :
    ((verify small_hash 1 (log_from 1)).intact ≡ true)
    × ((verify small_hash 1 (log_from 1)).entries ≡ 2)
    × ((verify small_hash 2 (log_from 1)).entries ≡ 1)
unfolding verify head entry_of digest payload
verify_runs = (refl, refl, refl)

-- A change of the second entry of org 1 is found at that entry.
tampered_run :
    let forge : AuditLog → AuditLog = λ e. record e { target_id = some 8; created_at = 31 } in
    (verify small_hash 1 (map forge (log_from 1))).broken_at ≡ some 1
unfolding verify head entry_of digest payload
tampered_run = refl

log-IsChained : All IsChained (of_org 1 (log_from 1))
unfolding head entry_of digest payload
log-IsChained = ((11 ∷ genesis, refl), ((31 ∷ 11 ∷ genesis, refl), tt))

verify-Linked_example :
    ((verify small_hash 1 (log_from 1)).intact ≡ true)
    ↔ Linked small_hash (anchor_of (of_org 1 (log_from 1))) (of_org 1 (log_from 1))
unfolding entry_of
verify-Linked_example =
    verify-Linked small_hash 1 small_hash-solid (log_from 1) (omega arith) log-IsChained

-- the same log without its last entry
abbrev shortened : Table
shortened =
    let a = new_entry small_hash (at 1 10 1) deletion 1 [] in
    let b = new_entry small_hash (at 2 20 2) deletion 2 (a ∷ []) in a ∷ b ∷ []

-- The last entry is gone, and the rest verifies.
verify-segment_example : (verify small_hash 1 shortened).intact ≡ true
unfolding verify head entry_of digest payload
verify-segment_example =
    verify-segment small_hash small_hash-solid 1 (log_from 1) shortened []
      (new_entry small_hash (at 3 30 1) deletion 1 shortened ∷ []) (omega arith) (omega arith) refl
      log-IsChained refl

renumbered-IsChained : All IsChained (of_org 1 (log_from 7))
unfolding head entry_of digest payload
renumbered-IsChained = ((11 ∷ genesis, refl), ((31 ∷ 11 ∷ genesis, refl), tt))

head-contents_example :
    contents small_hash (anchor_of (of_org 1 (log_from 1))) (of_org 1 (log_from 1))
    ≡ contents small_hash (anchor_of (of_org 1 (log_from 7))) (of_org 1 (log_from 7))
unfolding verify head entry_of digest payload
head-contents_example =
    head-contents small_hash small_hash-solid 1 (log_from 1) (log_from 7) (omega arith)
      (omega arith) log-IsChained renumbered-IsChained (λ _. refl, (λ _. refl, tt)) refl refl refl
      refl

verify-append_example :
    (verify small_hash 1
      (log_from 1 ++ new_entry small_hash (at 4 40 1) deletion 1 (log_from 1) ∷ [])).intact
    ≡ true
unfolding verify head entry_of digest payload append
verify-append_example =
    verify-append small_hash small_hash-solid (at 4 40 1) deletion (log_from 1) refl (omega arith)
      (omega arith) (omega arith) 1 log-IsChained refl

verify-walk_example :
    verify small_hash 1 (log_from 1)
    ≡ status small_hash 1 (walk small_hash 1 start (of_org 1 (log_from 1)))
unfolding entry_of
verify-walk_example = verify-walk small_hash 1 (log_from 1) (omega arith)

-- The first entry of org 1 is old enough to go.
verify-purge_before_example :
    ((verify small_hash 1 (purge_before 1 20 (log_from 1)).0).intact ≡ true)
    × ((other : ℕ)
        → other ≢ 1
        → of_org other (purge_before 1 20 (log_from 1)).0 ≡ of_org other (log_from 1))
unfolding verify head entry_of digest payload
verify-purge_before_example =
    verify-purge_before small_hash small_hash-solid 1 20 (log_from 1) (omega arith) log-IsChained
      (omega arith) refl
