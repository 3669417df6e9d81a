-- ===== src/Service/WriteTests.antt =====
-- Runs of the writes, of sequences of calls and of the links of services/memory_service.py.
use kortex_memory.Prelude.{◌≤◌, ◌≡◌, refl, true, false, some, List, [], ◌∷◌, ◌++◌, codes, arith}
use kortex_memory.Types.{ReviewStatus}
use kortex_memory.Access.{scope_eq}
use kortex_memory.Audit.{of_org}
use kortex_memory.Service.Write.{write}
use kortex_memory.Service.Requests
use kortex_memory.Service.Requests.{Call, serve, serve_all}
use kortex_memory.Policies.{max_memories}
use kortex_memory.Memories.Queries.{count_for_org, find_by_content_hash}
use kortex_memory.Service.Governance.{govern, digest_of}
use kortex_memory.Service.Tenancy.Steps.{IsTidy}
use kortex_memory.Service.Tenancy.Orgs.{owned_by, serve_all-strangers}
use kortex_memory.Service.Quota.{IsCapped, live_count}
use kortex_memory.Service.Quota.Writes.{WriteCall, write_all, write_all-cap}
use kortex_memory.Service.Repeats.Folds.{IsFolded, write-IsFolded}
use kortex_memory.Service.Samples.{world, user_of, note, three_rows}
use kortex_memory.Prelude.{inl, ◌++◌, false, codes}
use kortex_memory.Types.{MemorySource}
use kortex_memory.Policies.{Trust, Reason, patterns}
use kortex_memory.Access.{can_write}
use kortex_memory.Service.State.{Environment}
use kortex_memory.Service.Governance.{CreateMemoryInput, MemoryWrite}
use kortex_memory.Service.Write.{target_of}
use kortex_memory.Service.Samples.{row}
use kortex_memory.Service.Gating.{IsStored, write-IsStored, write-quarantined}
use kortex_memory.Types.{MemoryLinkType}
use kortex_memory.Memories.{MemoryLink}
use kortex_memory.Memories.Queries.{get_by_public_id}
use kortex_memory.Service.Links.{link}
use kortex_memory.Service.Links.Laws.{IsLinked, link-IsLinked}
use kortex_memory.Service.State.{State}

three_rows-IsTidy : IsTidy three_rows
three_rows-IsTidy = record { ordered = omega arith; below = omega arith; positive = omega arith }

three_rows-IsCapped : IsCapped world (user_of 1) 25_000 three_rows
unfolding max_memories count_for_org
three_rows-IsCapped = record { planned = refl; capped = omega arith; counted = omega arith }

abbrev calls : List WriteCall
calls =
    record { input = note (codes "new"); embed_inline = true; force = false }
    ∷ record { input = note (codes "new"); embed_inline = false; force = true }
    ∷ []

write_all-cap_example :
    live_count world (user_of 1) (write_all world (user_of 1) calls three_rows) ≤ 25_000
write_all-cap_example =
    write_all-cap world (user_of 1) 25_000 calls three_rows refl three_rows-IsTidy
      three_rows-IsCapped

serve_all-strangers_example :
    let after =
      serve_all world
        (record { principal = user_of 1; request = Requests.delete 3 }
          ∷ record {
            principal = user_of 1;
            request = Requests.write (note (codes "new")) false false;
          }
          ∷ [])
        three_rows in
    (owned_by 2 after.memories ≡ owned_by 2 three_rows.memories)
    × (of_org 2 after.audit ≡ of_org 2 three_rows.audit)
serve_all-strangers_example =
    serve_all-strangers world 2
      (record { principal = user_of 1; request = Requests.delete 3 }
        ∷ record {
          principal = user_of 1;
          request = Requests.write (note (codes "new")) false false;
        }
        ∷ [])
      three_rows three_rows-IsTidy ((refl, omega arith), ((refl, omega arith), tt))

digest_here :
    digest_of world (govern world (note (codes "new"))) ≡ some (codes "note" ++ 31 ∷ codes "new")
unfolding digest_of govern
digest_here = refl

write-IsFolded_example :
    IsFolded world
      (user_of 1)
      (note (codes "new"))
      (codes "note" ++ 31 ∷ codes "new")
      digest_here
      (write world (user_of 1) (note (codes "new")) false false three_rows).1
      (write world
        (user_of 1)
        (note (codes "new"))
        true
        false
        (write world (user_of 1) (note (codes "new")) false false three_rows).1)
unfolding write digest_of govern scope_eq find_by_content_hash
write-IsFolded_example =
    write-IsFolded world (user_of 1) (note (codes "new")) (codes "note" ++ 31 ∷ codes "new")
      digest_here false false true three_rows _ (omega arith) refl

-- everything reads like an attempt to override the instructions
abbrev wary : Environment
wary = record world { injection_quarantine = true; search = λ q t. true }

abbrev from_document : CreateMemoryInput
from_document = record (note (codes "new")) { source_type = MemorySource.document }

abbrev waiting : MemoryWrite
waiting = record {
  memory = record (row ReviewStatus.pending 4 1 (codes "new")) {
    source_type = MemorySource.document;
    trust = Trust.low;
    review_reason = some (Reason.injection patterns);
    content_hash = some (codes "note" ++ 31 ∷ codes "new");
    created_at = 100;
  };
  deduped = false;
  pii_flags = [];
  redacted = false;
  pending_review = true;
  review_reason = Reason.injection patterns;
}

write-quarantined_example :
    (waiting.memory.review_status ≡ ReviewStatus.pending) × (waiting.pending_review ≡ true)
unfolding write scope_eq find_by_content_hash govern
write-quarantined_example =
    write-quarantined wary (user_of 1) from_document false false three_rows waiting refl
      (inl refl, (λ h. cc h), inl refl) refl refl

write-IsStored_example :
    IsStored wary
      (user_of 1)
      from_document
      waiting
      (write wary (user_of 1) from_document false false three_rows).1
    × (can_write (user_of 1) (target_of wary (user_of 1) from_document) ≡ true)
unfolding write scope_eq find_by_content_hash govern
write-IsStored_example =
    write-IsStored wary (user_of 1) from_document false false three_rows waiting refl refl

abbrev supersession : MemoryLink
supersession = record {
  from_memory_id = 2;
  to_memory_id = 1;
  link_type = MemoryLinkType.supersedes;
  weight = 1;
  created_at = 100;
}

link-IsLinked_example :
    IsLinked world
      (user_of 1)
      2
      1
      MemoryLinkType.supersedes
      three_rows
      supersession
      (link world (user_of 1) 2 1 MemoryLinkType.supersedes 1 three_rows).1
unfolding link get_by_public_id
link-IsLinked_example =
    link-IsLinked world (user_of 1) 2 1 MemoryLinkType.supersedes 1 three_rows supersession refl

abbrev linked_rows : State
linked_rows = record three_rows { db = record three_rows.db { links = supersession ∷ [] } }
