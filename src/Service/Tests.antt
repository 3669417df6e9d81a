-- ===== src/Service/Tests.antt =====
-- Runs of the memory service of services/memory_service.py.
use kortex_memory.Prelude.{◌≤◌, ◌≡◌, refl, true, none, some, [], ◌∷◌, codes, All, In, length, arith}
use kortex_memory.Types.{Sensitivity, ReviewStatus}
use kortex_memory.Access.{Principal, scope_eq, has_key_scope}
use kortex_memory.Memories.{Memory}
use kortex_memory.Memories.Writes.{Changes}
use kortex_memory.Service.Exec.{ok}
use kortex_memory.Service.Methods.{get, list_memories, delete_memory, review}
use kortex_memory.Service.Requests
use kortex_memory.Service.Requests.{Call, serve, serve_all}
use kortex_memory.Policies.{sensitivities_up_to}
use kortex_memory.Service.Methods.{BulkAction}
use kortex_memory.Service.Reads.{IsVisible, IsListed, get-IsVisible, list_memories-IsListed}
use kortex_memory.Service.Refusals.{serve-refused}
use kortex_memory.Service.Deletion.{IsGone, delete_memory-IsGone}
use kortex_memory.Service.Reviewing.{IsReviewed, review-IsReviewed}
use kortex_memory.Service.Samples.{world, user_of, first, second, three_rows}
use kortex_memory.Prelude.{codes}

reads_run :
    ((get world (user_of 1) 1 three_rows).0 ≡ ok (some first))
    × ((get world (user_of 1) 3 three_rows).0 ≡ ok none)
    × ((list_memories world (user_of 1) none none none 10 0 three_rows).0 ≡ ok (first ∷ []))
unfolding get list_memories scope_eq sensitivities_up_to
reads_run = (refl, refl, refl)

get-IsVisible_example :
    In first three_rows.memories
    × ((first.public_id ≡ 1)
        × (IsVisible (user_of 1) first × ((get world (user_of 1) 1 three_rows).1 ≡ three_rows)))
unfolding get scope_eq
get-IsVisible_example = get-IsVisible world (user_of 1) 1 three_rows first refl

list_memories-IsListed_example :
    All (λ m. In m three_rows.memories × IsListed (user_of 1) m) (first ∷ [])
    × (length (first ∷ []) ≤ 10)
unfolding list_memories scope_eq sensitivities_up_to
list_memories-IsListed_example =
    list_memories-IsListed world (user_of 1) none none none 10 0 three_rows (first ∷ []) refl

-- a key that may only read
abbrev reader : Principal
reader = record (user_of 1) { key_scopes = "read:memory" ∷ [] }

serve-refused_example :
    serve world reader (Requests.bulk_apply BulkAction.delete (1 ∷ 2 ∷ [])) three_rows ≡ three_rows
unfolding has_key_scope
serve-refused_example =
    serve-refused world reader refl (Requests.bulk_apply BulkAction.delete (1 ∷ 2 ∷ [])) three_rows

-- a new body at a higher tier
abbrev change : Changes
change = record {
  title = none;
  body = some (codes "new");
  kind = none;
  sensitivity = some Sensitivity.confidential;
  importance = none;
  metadata = none;
}

delete_memory-IsGone_example :
    IsGone world (user_of 1) 1 three_rows (delete_memory world (user_of 1) 1 three_rows).1
unfolding delete_memory scope_eq
delete_memory-IsGone_example =
    delete_memory-IsGone world (user_of 1) 1 three_rows (omega arith) (omega arith) refl

-- the second row, approved
abbrev approved_second : Memory
approved_second = record second {
  review_status = ReviewStatus.approved;
  reviewed_at = some 100;
  reviewed_by = some 4;
}

review-IsReviewed_example :
    IsReviewed world
      (user_of 1)
      2
      true
      three_rows
      approved_second
      (review world (user_of 1) 2 true three_rows).1
unfolding review scope_eq
review-IsReviewed_example =
    review-IsReviewed world (user_of 1) 2 true three_rows approved_second (omega arith) refl
