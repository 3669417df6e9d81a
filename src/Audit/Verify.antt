-- ===== src/Audit/Verify.antt =====
-- `AuditRepository.verify` of repositories/audit_repo.py: the walk along the chain of one org, page by
-- page. The walk stops when a page is empty; its fuel bounds the number of pages.
use kortex_memory.Prelude.{
  ℕ, zero, suc, ◌+◌, Bool, true, false, not, Option, none, some, [], ◌∷◌, Text, length, text_eq,
  option_text_eq, if◌then◌else◌,
}
use kortex_memory.Audit.{AuditLog, Payload, Table, genesis, or_genesis, digest, read}

-- the two details with which a chain is reported broken
pub data Detail : Type 0 where
  altered_or_removed : Option Text → Option Text → Detail
  content_differs : Detail

pub record ChainStatus : Type 0 where
  pub org_id : ℕ
  pub entries : ℕ
  pub unchained : ℕ
  pub intact : Bool
  pub broken_at : Option ℕ
  pub detail : Option Detail
  pub anchor_prev : Text

-- the variables of the loop
pub record Walk : Type 0 where
  pub expected : Option Text
  pub anchor : Text
  pub entries : ℕ
  pub unchained : ℕ

pub data Outcome : Type 0 where
  going : Walk → Outcome
  broken : ChainStatus → Outcome

abbrev pub start : Walk
start = record { expected = none; anchor = genesis; entries = 0; unchained = 0 }

-- `VERIFY_PAGE`
abbrev pub verify_page : ℕ
verify_page = 500

unfoldable pub broken_status : ℕ → Walk → AuditLog → Detail → ChainStatus
broken_status org w e d = record {
  org_id = org;
  entries = w.entries;
  unchained = w.unchained;
  intact = false;
  broken_at = some e.id;
  detail = some d;
  anchor_prev = w.anchor;
}

unfoldable pub intact_status : ℕ → Walk → ChainStatus
intact_status org w = record {
  org_id = org;
  entries = w.entries;
  unchained = w.unchained;
  intact = true;
  broken_at = none;
  detail = none;
  anchor_prev = w.anchor;
}

-- `if expected is None`: the walk is anchored on the first chained entry
abbrev pub anchor_with : Option Text → Walk → AuditLog → Walk
anchor_with none w e = record w {
  expected = some (or_genesis e.prev_hash);
  anchor = or_genesis e.prev_hash;
}
anchor_with (some h) w e = w

abbrev pub anchored : Walk → AuditLog → Walk
anchored w e = anchor_with w.expected w e

abbrev pub counted : Walk → Walk
counted w = record w { entries = w.entries + 1 }

abbrev pub last_id : ℕ → Table → ℕ
last_id i [] = i
last_id i (e ∷ es) = last_id e.id es

module _ (hash : Payload → Text) (org : ℕ) where
  -- the checks on a chained entry, once the walk has its anchor
  unfoldable pub check_entry : Walk → AuditLog → Text → Outcome
  unfolding text_eq option_text_eq digest broken_status
  check_entry w e h =
      if not (option_text_eq e.prev_hash w.expected)
      then broken (broken_status org w e (altered_or_removed w.expected e.prev_hash))
      else if not (text_eq (digest hash e (or_genesis e.prev_hash)) h)
      then broken (broken_status org w e content_differs)
      else going (record w { expected = some h })

  -- the body of the loop over a page
  abbrev pub step_on : Option Text → Walk → AuditLog → Outcome
  step_on none w e = going (record (counted w) { unchained = w.unchained + 1 })
  step_on (some h) w e = check_entry (anchored (counted w) e) e h

  unfoldable pub step : Walk → AuditLog → Outcome
  unfolding check_entry
  step w e = step_on e.entry_hash w e

  unfoldable pub walk : Walk → Table → Outcome
  unfolding step
  walk w [] = going w
  walk w (e ∷ es) = elim (step w e) [ broken s ↦ broken s | going w' ↦ walk w' es ]

  abbrev pub status : Outcome → ChainStatus
  status (broken s) = s
  status (going w) = intact_status org w

  abbrev pub settle : (ℕ → Walk → ChainStatus) → ℕ → Outcome → ChainStatus
  settle again after_id (broken s) = s
  settle again after_id (going w) = again after_id w

  -- `if not page: break`, or the walk over the page and the next page
  abbrev pub after_page : (ℕ → Walk → ChainStatus) → ℕ → Walk → Table → ChainStatus
  after_page again after_id w [] = intact_status org w
  after_page again after_id w (e ∷ es) = settle again (last_id after_id (e ∷ es)) (walk w (e ∷ es))

  unfoldable pub verify_from : ℕ → ℕ → ℕ → Walk → Table → ChainStatus
  unfolding read walk intact_status
  verify_from zero page after_id w t = intact_status org w
  verify_from (suc fuel) page after_id w t =
      after_page (λ i w'. verify_from fuel page i w' t) after_id w
        (read org none none after_id page t)

  -- one page of at least one entry for each entry of the table, and the empty page
  unfoldable pub verify : Table → ChainStatus
  unfolding verify_from
  verify t = verify_from (suc (length t)) verify_page 0 start t
