-- ===== src/Decay/Tests.antt =====
-- A decay tick over three rows.
use kortex_memory.Prelude.{false, none, some, In, inl, ◌*◌, ◌≡◌, refl, true, [], ◌∷◌, codes, arith}
use kortex_memory.Types.{ReviewStatus}
use kortex_memory.Memories.{Memory, Table}
use kortex_memory.Memories.Rows.{IsOrdered}
use kortex_memory.Service.Samples.{row}
use kortex_memory.Decay.{DecayWorld, refused, answer, tick_one_org}
use kortex_memory.Decay.Laws.{IsTicked, tick_one_org-map}
use kortex_memory.Decay.Deleting.{IsDeleted, tick_one_org-IsDeleted}

-- a score that has faded for every memory that nobody read
abbrev weather : DecayWorld
weather = record {
  short_to_mid_age_hours = 24;
  short_delete_age_days = 7;
  short_delete_threshold = 50_000;
  mid_archive_age_days = 180;
  mid_archive_threshold = 100_000;
  one = 1_000_000;
  faded = λ x now median. x.access_count * 100_000;
  median_answer = λ org. answer 0 false;
}

abbrev fading : Memory
fading = row ReviewStatus.approved 1 1 (codes "one")

-- a faded row, a pinned one and one that was read
abbrev rows : Table
rows =
    fading
    ∷ record (row ReviewStatus.approved 2 1 (codes "two")) { pinned = true }
    ∷ record (row ReviewStatus.approved 3 1 (codes "three")) { access_count = 2 }
    ∷ []

ticked :
    (tick_one_org weather 1_000_000 1 rows).0
    ≡ some (record { scored = 2; promoted = 1; archived = 0; deleted = 1 })
unfolding tick_one_org
ticked = refl

-- what the statement without a FROM clause leads to
refused_tick :
    tick_one_org (record weather { median_answer = λ org. refused }) 1_000_000 1 rows ≡ (none, rows)
unfolding tick_one_org
refused_tick = refl

rows-IsOrdered : IsOrdered 0 rows
rows-IsOrdered = (omega arith, (omega arith, (omega arith, tt)))

tick_one_org-map_example :
    IsTicked weather 1_000_000 1 rows rows-IsOrdered
      (weather.median_answer 1)
      (tick_one_org weather 1_000_000 1 rows)
tick_one_org-map_example = tick_one_org-map weather 1_000_000 1 rows rows-IsOrdered

abbrev faded_row : Memory
faded_row = record fading { deleted_at = some 1_000_000 }

deleted_there : In faded_row (tick_one_org weather 1_000_000 1 rows).1
unfolding tick_one_org
deleted_there = inl refl

tick_one_org-IsDeleted_example : IsDeleted weather 1_000_000 1 fading
tick_one_org-IsDeleted_example =
    tick_one_org-IsDeleted weather 1_000_000 1 rows rows-IsOrdered fading faded_row (inl refl)
      deleted_there refl refl refl
