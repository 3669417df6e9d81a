-- ===== src/Decay.antt =====
-- packages/kortex-core/src/kortex_core/skills/decay_policy.py, the decay tick of
-- packages/kortex-worker/src/kortex_worker/tasks/decay.py and `median_access_count` of
-- repositories/memory_repo.py. The score of a memory, an expression of exponentials and logarithms that is
-- clamped between 0.0 and 1.0, is the parameter `faded`; its arguments are what the policy reads and the
-- median. What Postgres answers to the statement for the median is the parameter `median_answer`; the
-- statement has no FROM clause, and the answer to such a one is `refused`. A time is in seconds.
pub mod Passing
pub mod Laws
pub mod Deleting
mod Tests
use kortex_memory.Prelude.{
  ℕ, zero, suc, ◌+◌, ◌*◌, Bool, true, false, ◌&&◌, Option, none, some, List, [], ◌∷◌, ltb, leb,
  if◌then◌else◌,
}
use kortex_memory.Types.{MemoryTier, ActorKind, Sensitivity, tier_eq}
use kortex_memory.Access.{Principal}
use kortex_memory.Memories.{Memory, Table, replace_row}
use kortex_memory.Memories.Queries.{iter_for_decay}
use kortex_memory.Memories.Writes.{soft_delete, apply_decay}

pub record DecayInputs : Type 0 where
  pub importance : ℕ
  pub access_count : ℕ
  pub last_accessed_at : Option ℕ
  pub created_at : ℕ
  pub tier : MemoryTier
  pub pinned : Bool

pub record DecayDecision : Type 0 where
  pub new_decay_score : ℕ
  pub new_tier : Option MemoryTier
  pub should_hard_delete : Bool
  pub should_archive : Bool

-- an error of the database, a result without rows, or one row with a number: its whole part, and whether
-- a fraction follows
pub data MedianAnswer : Type 0 where
  refused no_row : MedianAnswer
  answer : ℕ → Bool → MedianAnswer

-- `median_access_count`; `none` is the exception
abbrev pub median_access_count : MedianAnswer → Option ℕ
median_access_count refused = none
median_access_count no_row = some 1
median_access_count (answer zero false) = some 1
median_access_count (answer zero true) = some 0
median_access_count (answer (suc n) fraction) = some (suc n)

-- the settings of the policy, 1.0, the score, and what the database answers for an org
pub record DecayWorld : Type 0 where
  pub short_to_mid_age_hours : ℕ
  pub short_delete_age_days : ℕ
  pub short_delete_threshold : ℕ
  pub mid_archive_age_days : ℕ
  pub mid_archive_threshold : ℕ
  pub one : ℕ
  pub faded : DecayInputs → ℕ → ℕ → ℕ
  pub median_answer : ℕ → MedianAnswer

-- `(now - created_at) / unit >= age`
abbrev pub is_aged : ℕ → ℕ → ℕ → ℕ → Bool
is_aged unit age created now = leb (created + age * unit) now

-- what the tick counts
pub record Counts : Type 0 where
  pub scored : ℕ
  pub promoted : ℕ
  pub archived : ℕ
  pub deleted : ℕ

abbrev pub count_promoted : Option MemoryTier → ℕ → ℕ
count_promoted none n = n
count_promoted (some t) n = n + 1

abbrev pub count : DecayDecision → Counts → Counts
count d c =
    let scored = record c { scored = c.scored + 1 } in
    if d.should_hard_delete
    then record scored { deleted = c.deleted + 1 }
    else if d.should_archive
    then record scored { archived = c.archived + 1 }
    else record scored { promoted = count_promoted d.new_tier c.promoted }

module _ (w : DecayWorld) where
  abbrev pub is_promoted : DecayInputs → ℕ → Bool
  is_promoted x now =
      tier_eq x.tier MemoryTier.short
      && is_aged 3600 w.short_to_mid_age_hours x.created_at now
      && leb 400_000 x.importance
      && leb 1 x.access_count

  abbrev pub is_expired : DecayInputs → ℕ → ℕ → Bool
  is_expired x score now =
      tier_eq x.tier MemoryTier.short
      && is_aged 86_400 w.short_delete_age_days x.created_at now
      && ltb score w.short_delete_threshold

  abbrev pub is_archived : DecayInputs → ℕ → ℕ → Bool
  is_archived x score now =
      tier_eq x.tier MemoryTier.mid
      && is_aged 86_400 w.mid_archive_age_days x.created_at now
      && ltb score w.mid_archive_threshold

  -- `evaluate`
  unfoldable pub evaluate : DecayInputs → ℕ → ℕ → DecayDecision
  evaluate x now median =
      if x.pinned
      then record {
        new_decay_score = w.one;
        new_tier = none;
        should_hard_delete = false;
        should_archive = false;
      }
      else record {
        new_decay_score = w.faded x now median;
        new_tier = if is_promoted x now then some MemoryTier.mid else none;
        should_hard_delete = is_expired x (w.faded x now median) now;
        should_archive = is_archived x (w.faded x now median) now;
      }

  abbrev pub inputs_of : Memory → DecayInputs
  inputs_of m = record {
    importance = m.importance;
    access_count = m.access_count;
    last_accessed_at = m.last_accessed_at;
    created_at = m.created_at;
    tier = m.tier;
    pinned = m.pinned;
  }

  -- what a decision does to the table
  abbrev pub carry_out : ℕ → Memory → DecayDecision → Table → Table
  carry_out now m d t =
      if d.should_hard_delete
      then replace_row (soft_delete now m) t
      else if d.should_archive
      then apply_decay m.id d.new_decay_score (some MemoryTier.long) t
      else apply_decay m.id d.new_decay_score d.new_tier t

  -- the loop over the rows
  unfoldable pub tick_rows : ℕ → ℕ → List Memory → Table → Counts → Table × Counts
  unfolding evaluate replace_row soft_delete apply_decay
  tick_rows now median [] t c = (t, c)
  tick_rows now median (m ∷ ms) t c =
      let d = evaluate (inputs_of m) now median in
      tick_rows now median ms (carry_out now m d t) (count d c)

  -- `_superuser`
  abbrev pub superuser : ℕ → Principal
  superuser org = record {
    actor_id = 0;
    actor_kind = ActorKind.system;
    org_id = org;
    scope = none;
    roles = [];
    key_scopes = [];
    max_sensitivity = Sensitivity.internal;
    is_superuser = true;
  }

  abbrev pub no_counts : Counts
  no_counts = record { scored = 0; promoted = 0; archived = 0; deleted = 0 }

  -- a query for the rows takes 500 of them
  abbrev pub tick_with : Option ℕ → ℕ → ℕ → Table → Option Counts × Table
  tick_with none now org t = (none, t)
  tick_with (some median) now org t =
      let r = tick_rows now median (iter_for_decay (superuser org) org 500 t) t no_counts in
      (some r.1, r.0)

  -- `_tick_one_org`; `none` is an exception
  unfoldable pub tick_one_org : ℕ → ℕ → Table → Option Counts × Table
  unfolding iter_for_decay tick_rows
  tick_one_org now org t = tick_with (median_access_count (w.median_answer org)) now org t
