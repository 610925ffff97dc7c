-- ===== src/Execution/Steps.antt =====
-- The parts of an execution that succeeded.
use razor_flow.Prelude.{
  nat_eq, Text, ℕ, ◌≡◌, refl, ◌⊎◌, inl, inr, true, not, Option, none, some, List, [], ◌∷◌, arith,
  contains, find, nat_beq, nat_beq_iff, Bool-cases, ok, bind-ok, then-ok, ok_injective,
  raise_unless, subst, case_terminal, is_some,
}
use razor_flow.Domain.Enums.{
  RecoveryCaseStatus, RecoveryActionType, RecoveryAttemptStatus, case_status_eq,
}
use razor_flow.Domain.StateMachine.Reach.{IsTerminal}
use razor_flow.Domain.StateMachine.{attempt_validate_transition}
use razor_flow.Audit.{Crypto}
use razor_flow.Persistence.{
  has_merchant, Db, RecoveryCaseModel, RecoveryCommand, update_row, get_case, save_case,
}
use razor_flow.Execution.Executors.{
  GatewayReplies, GatewayPaymentLinkResult, GatewayNotificationResult, Execution, execute_action,
  send_reminder, payment_link_execute, reminder_execute, wait_execute, human_execute,
}
use razor_flow.Execution.Orchestrator.{
  OrchestrationResult, terminal_statuses, start_execution, conclude, execute_new, attempt_of,
  created, run_from,
}

not-IsTerminal :
    (s : RecoveryCaseStatus)
    → raise_unless (not (contains s terminal_statuses)) case_terminal ≡ ok tt
    → ¬ (IsTerminal s)
not-IsTerminal s e = ground arith

-- Reading a row after it was written.
pub find-update_row :
    {A : Type 0} (id_of : A → ℕ) (k : ℕ) (new : A) (rows : List A) {old : A}
    → id_of new ≡ k
    → find (λ row. nat_beq (id_of row) k) rows ≡ some old
    → find (λ row. nat_beq (id_of row) k) (update_row id_of k new rows) ≡ some new
find-update_row id_of k new [] same e = cc
find-update_row id_of k new (row ∷ rows) same e = elim (Bool-cases (nat_beq (id_of row) k)) [
  | inl here ↦ rw here (rw ((nat_beq_iff (id_of new) k).1 same) refl)
  | inr there ↦ rw there (rw there (find-update_row id_of k new rows same (rw there at e)))
]

pub find-holds :
    {A : Type 0} (test : A → _) (rows : List A) {a : A} → find test rows ≡ some a → test a ≡ true
find-holds test [] e = cc
find-holds test (row ∷ rows) e = elim (Bool-cases (test row)) [
  | inl here ↦ ground arith
  | inr there ↦ find-holds test rows (rw there at e)
]

module _ {F : Type 0} where
  -- The executors schedule, and change nothing else of the case; they send at most one request,
  -- under the command's key.
  abbrev pub OnlySchedules : RecoveryCommand → RecoveryCaseModel F → Execution F → Type 0
  OnlySchedules command case run =
      (at : Option ℕ) × (run.case_after ≡ record case { next_action_scheduled_at = at })
      × ((run.calls ≡ []) ⊎ (run.calls ≡ command.idempotency_key ∷ []))

  payment_link-OnlySchedules :
      (db : Db F) (command : RecoveryCommand) (case : RecoveryCaseModel F)
      (reply : Option GatewayPaymentLinkResult)
      → OnlySchedules command case (payment_link_execute db command case reply)
  unfolding payment_link_execute
  payment_link-OnlySchedules db command case reply =
      elim (Bool-cases (is_some (find (λ row. nat_beq row.id case.order_id) db.orders))) [
        | inl ordered ↦ elim (Bool-cases (has_merchant case.merchant_id db)) [
          | inl known ↦ rw (ordered, known) (case.next_action_scheduled_at, refl, inr refl)
          | inr unknown ↦ rw (ordered, unknown) (case.next_action_scheduled_at, refl, inl refl)
        ]
        | inr missing ↦ rw missing (case.next_action_scheduled_at, refl, inl refl)
      ]

  send_reminder-OnlySchedules :
      (link : Option Text) (db : Db F) (command : RecoveryCommand) (case : RecoveryCaseModel F)
      (reply : Option GatewayNotificationResult)
      → OnlySchedules command case (send_reminder link db command case reply)
  send_reminder-OnlySchedules none db command case reply =
      (case.next_action_scheduled_at, refl, inl refl)
  send_reminder-OnlySchedules (some link) db command case reply =
      elim (Bool-cases (has_merchant case.merchant_id db)) [
        | inl known ↦ rw known (case.next_action_scheduled_at, refl, inr refl)
        | inr unknown ↦ rw unknown (case.next_action_scheduled_at, refl, inl refl)
      ]

  pub execute_action-OnlySchedules :
      (action : RecoveryActionType) (db : Db F) (command : RecoveryCommand)
      (case : RecoveryCaseModel F) (replies : GatewayReplies) (now : ℕ) {run : Execution F}
      → execute_action action db command case replies now ≡ ok run
      → OnlySchedules command case run
  unfolding execute_action reminder_execute wait_execute human_execute
  execute_action-OnlySchedules RecoveryActionType.payment_link db command case replies now e =
      subst (OnlySchedules command case) (ok_injective e)
        (payment_link-OnlySchedules db command case replies.link)
  execute_action-OnlySchedules RecoveryActionType.customer_reminder db command case replies now e =
      subst (OnlySchedules command case) (ok_injective e)
        (send_reminder-OnlySchedules _ db command case replies.reminder)
  execute_action-OnlySchedules RecoveryActionType.wait_and_reassess db command case replies now e =
      subst (OnlySchedules command case) (ok_injective e) (_, refl, inl refl)
  execute_action-OnlySchedules RecoveryActionType.human_escalation db command case replies now e =
      subst (OnlySchedules command case) (ok_injective e) (_, refl, inl refl)
  execute_action-OnlySchedules RecoveryActionType.do_nothing db command case replies now e = cc

  pub get_case-save_case :
      (case : RecoveryCaseModel F) (db : Db F) {k : ℕ} {old : RecoveryCaseModel F}
      → case.id ≡ k
      → get_case k db ≡ some old
      → get_case k (save_case case db) ≡ some case
  unfolding save_case
  get_case-save_case case db {old = old} same found =
      subst (λ k. get_case k db ≡ some old → get_case k (save_case case db) ≡ some case) same
        (find-update_row (λ row. row.id) case.id case db.cases refl) found

  module _ (crypto : Crypto) (replies : GatewayReplies) (now : ℕ) where
    -- A new execution that succeeded: the case was not terminal, its executor ran on it after
    -- step 4, and steps 9 to 11 followed.
    abbrev pub Executed :
        RecoveryCommand
        → Option ℕ
        → RecoveryCaseModel F
        → Db F
        → OrchestrationResult × Db F
        → Type 0
    Executed command decision_id case db after =
        (started : RecoveryCaseStatus) × (run : Execution F) × (¬ (IsTerminal case.status))
        × (start_execution case.status ≡ ok started)
        × (run_from crypto replies now db command decision_id case started ≡ ok run)
        × (conclude crypto replies now command
              (attempt_of crypto replies now db command decision_id case) run
              (created crypto replies now db command case)
            ≡ after)

    pub execute_new-ok :
        (command : RecoveryCommand) (decision_id : Option ℕ) (case : RecoveryCaseModel F)
        (db : Db F) {after : OrchestrationResult × Db F}
        → execute_new crypto replies now command decision_id case db ≡ ok after
        → Executed command decision_id case db after
    unfolding execute_new
    execute_new-ok command decision_id case db e =
        let (alive, e₁) =
          then-ok (raise_unless (not (contains case.status terminal_statuses)) case_terminal) _ e in
        let (started, starts, e₂) = bind-ok (start_execution case.status) _ e₁ in
        let (_, e₃) =
          then-ok
            (attempt_validate_transition RecoveryAttemptStatus.draft
              RecoveryAttemptStatus.dispatched)
            _ e₂ in
        let (run, ran, e₄) =
          bind-ok (run_from crypto replies now db command decision_id case started) _ e₃ in
        (started, run, not-IsTerminal case.status alive, starts, ran, ok_injective e₄)
