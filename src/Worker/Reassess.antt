-- ===== src/Worker/Reassess.antt =====
-- `_reassess_scheduled_cases_async`: the rows that its query selects, and what it writes to them.
use razor_flow.Prelude.{
  ℕ, ◌+◌, Bool, false, ◌&&◌, Option, none, some, List, [], ◌∷◌, if◌then◌else◌, ◌==◌, leb,
}
use razor_flow.Domain.Enums.{RecoveryCaseStatus, case_status_eq}
use razor_flow.Persistence.{RecoveryCaseModel}

abbrev pub is_scheduled_by : ℕ → Option ℕ → Bool
is_scheduled_by now none = false
is_scheduled_by now (some sched_at) = leb sched_at now

module _ {F : Type 0} where
  abbrev pub is_due : ℕ → RecoveryCaseModel F → Bool
  is_due now case =
      (case.status == RecoveryCaseStatus.waiting_external)
      && is_scheduled_by now case.next_action_scheduled_at

  abbrev pub reassess_case : ℕ → RecoveryCaseModel F → RecoveryCaseModel F
  reassess_case now case =
      if is_due now case
      then record case { status = RecoveryCaseStatus.detected; next_action_scheduled_at = none }
      else case

  -- The rows after the loop, and `reassessed_count`.
  unfoldable pub reassess_cases : ℕ → List (RecoveryCaseModel F) → List (RecoveryCaseModel F) × ℕ
  reassess_cases now [] = ([], 0)
  reassess_cases now (case ∷ cases) =
      let rest = reassess_cases now cases in
      (reassess_case now case ∷ rest.0, if is_due now case then rest.1 + 1 else rest.1)
