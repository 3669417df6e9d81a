-- ===== src/Memories/Queries.antt =====
-- The reads of packages/kortex-core/src/kortex_core/repositories/memory_repo.py on the table of
-- memories. A query with neither an order nor a limit returns its rows in the order of the table.
use kortex_memory.Prelude.{
  ℕ, Bool, true, not, ◌&&◌, Option, none, some, List, [], ◌∷◌, Text, keep, take, drop, length, any,
  sort_asc, sort_desc, option_text_eq, ◌==◌,
}
use kortex_memory.Types.{
  ScopeType, MemoryTier, MemoryKind, Sensitivity, ReviewStatus, tier_eq, kind_eq, status_eq,
}
use kortex_memory.Access.{Principal}
use kortex_memory.Policies.{sensitivities_up_to, sensitivity_in}
use kortex_memory.Memories.{
  Memory, Table, find, is_none, is_live, in_tenant, in_scope, meta_get, as_text,
}

abbrev pub by_public_id : Principal → ℕ → Memory → Bool
by_public_id p public_id m = in_tenant p m && m.public_id == public_id && is_live m

unfoldable pub get_by_public_id : Principal → ℕ → Table → Option Memory
unfolding find
get_by_public_id p public_id t = find (by_public_id p public_id) t

abbrev pub by_id : Principal → ℕ → Memory → Bool
by_id p memory_id m = in_tenant p m && m.id == memory_id && is_live m

unfoldable pub get_by_id : Principal → ℕ → Table → Option Memory
unfolding find
get_by_id p memory_id t = find (by_id p memory_id) t

-- `count_for_org`: the live rows of an org
abbrev pub live_in_org : ℕ → Memory → Bool
live_in_org org m = m.org_id == org && is_live m

unfoldable pub count_for_org : ℕ → Table → ℕ
count_for_org org t = length (keep (live_in_org org) t)

pub record ScopeFilter : Type 0 where
  pub scope_type : ScopeType
  pub scope_id : ℕ

abbrev pub scope_ok : Option ScopeFilter → Memory → Bool
scope_ok none m = true
scope_ok (some s) m = in_scope s.scope_type s.scope_id m

abbrev pub tier_ok : Option MemoryTier → Memory → Bool
tier_ok none m = true
tier_ok (some t) m = tier_eq m.tier t

abbrev pub kind_ok : Option MemoryKind → Memory → Bool
kind_ok none m = true
kind_ok (some k) m = kind_eq m.kind k

abbrev pub cap_ok : Option Sensitivity → Memory → Bool
cap_ok none m = true
cap_ok (some cap) m = sensitivity_in m.sensitivity (sensitivities_up_to cap)

-- the rows that `list_` selects, before their order and the page
abbrev pub listed :
    Principal
    → Option ScopeFilter
    → Option MemoryTier
    → Option MemoryKind
    → Option Sensitivity
    → Memory
    → Bool
listed p scope tier kind cap m =
    in_tenant p m
    && is_live m
    && status_eq m.review_status ReviewStatus.approved
    && scope_ok scope m
    && tier_ok tier m
    && kind_ok kind m
    && cap_ok cap m

abbrev pub created : Memory → ℕ
created m = m.created_at

-- `list_`, newest first
unfoldable pub list_rows :
    Principal
    → Option ScopeFilter
    → Option MemoryTier
    → Option MemoryKind
    → Option Sensitivity
    → ℕ
    → ℕ
    → Table
    → Table
unfolding sort_desc
list_rows p scope tier kind cap limit offset t =
    take limit (drop offset (sort_desc created (keep (listed p scope tier kind cap) t)))

abbrev pub is_pending_row : Principal → Memory → Bool
is_pending_row p m = in_tenant p m && is_live m && status_eq m.review_status ReviewStatus.pending

-- `list_pending_review`, oldest first
unfoldable pub list_pending_review : Principal → ℕ → ℕ → Table → Table
unfolding sort_asc
list_pending_review p limit offset t =
    take limit (drop offset (sort_asc created (keep (is_pending_row p) t)))

unfoldable pub count_pending_review : Principal → Table → ℕ
count_pending_review p t = length (keep (is_pending_row p) t)

abbrev pub by_metadata : Principal → ScopeType → ℕ → Text → Text → Memory → Bool
by_metadata p st sid key value m =
    in_tenant p m
    && is_live m
    && in_scope st sid m
    && option_text_eq (as_text (meta_get key m.metadata)) (some value)

unfoldable pub find_by_metadata : Principal → ScopeType → ℕ → Text → Text → Table → Option Memory
unfolding find meta_get option_text_eq
find_by_metadata p st sid key value t = find (by_metadata p st sid key value) t

abbrev pub has_metadata_key : Principal → ScopeType → ℕ → Text → Memory → Bool
has_metadata_key p st sid key m =
    in_tenant p m
    && is_live m
    && in_scope st sid m
    && not (is_none (as_text (meta_get key m.metadata)))

unfoldable pub list_by_metadata_key : Principal → ScopeType → ℕ → Text → ℕ → Table → Table
unfolding meta_get
list_by_metadata_key p st sid key limit t = take limit (keep (has_metadata_key p st sid key) t)

abbrev pub by_content_hash : Principal → ScopeType → ℕ → Text → Memory → Bool
by_content_hash p st sid digest m =
    in_tenant p m && is_live m && in_scope st sid m && option_text_eq m.content_hash (some digest)

abbrev pub head? : Table → Option Memory
head? [] = none
head? (m ∷ ms) = some m

-- the oldest row with the fingerprint
unfoldable pub find_by_content_hash : Principal → ScopeType → ℕ → Text → Table → Option Memory
unfolding option_text_eq sort_asc
find_by_content_hash p st sid digest t =
    head? (sort_asc created (keep (by_content_hash p st sid digest) t))

-- `list_by_ids`: rows that were deleted are not left out
unfoldable pub list_by_ids : Principal → List ℕ → Table → Table
list_by_ids p ids t = keep (λ m. in_tenant p m && any (λ i. m.id == i) ids) t

-- `iter_for_decay`: the table is in the order of the ids
unfoldable pub iter_for_decay : Principal → ℕ → ℕ → Table → Table
iter_for_decay p org batch_size t =
    take batch_size (keep (λ m. in_tenant p m && m.org_id == org && is_live m && not m.pinned) t)

unfoldable pub list_for_consolidation : Principal → ℕ → ℕ → Table → Table
list_for_consolidation p org limit t = take limit (
    keep
      (λ m.
        in_tenant p m
        && m.org_id == org
        && is_live m
        && not m.pinned
        && tier_eq m.tier MemoryTier.mid
        && not (is_none m.embedding))
      t)

unfoldable pub list_pending_conflict_check : Principal → List MemoryKind → ℕ → Table → Table
unfolding sort_desc
list_pending_conflict_check p kinds limit t = take limit (
    sort_desc created (
      keep
        (λ m.
          in_tenant p m
          && is_live m
          && is_none m.conflict_checked_at
          && not (is_none m.embedding)
          && any (kind_eq m.kind) kinds)
        t))
