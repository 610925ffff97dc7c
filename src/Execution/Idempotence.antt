-- ===== src/Execution/Idempotence.antt =====
-- A command is executed once: whatever the gateway answers and whenever it is repeated.
use razor_flow.Prelude.{
  ℕ, ◌≡◌, refl, ap, ◌∙◌, ◌⊎◌, inl, inr, true, Option, none, some, nat_beq_iff, Option-cases, ok,
  ok_injective, subst,
}
use razor_flow.Audit.{Crypto}
use razor_flow.Persistence.{
  Db, RecoveryCaseModel, RecoveryCommand, RecoveryAttemptModel, key_eq, key_beq_iff, get_case,
  get_attempt, save_case,
}
use razor_flow.Execution.Executors.{GatewayReplies, Execution}
use razor_flow.Execution.Orchestrator.{
  OrchestrationResult, conclude, duplicate_result, execute_command, finished_case, finished_attempt,
  attempt_of, created,
}
use razor_flow.Execution.Steps.{
  Executed, execute_new-ok, execute_action-OnlySchedules, get_case-save_case, find-holds,
}

module _ {F : Type 0} (crypto : Crypto) where
  -- An execution that succeeded found its case; either its key was used before, and nothing
  -- changed, or it is new.
  abbrev pub Outcomes :
      GatewayReplies → ℕ → RecoveryCommand → Option ℕ → Db F → OrchestrationResult × Db F → Type 0
  Outcomes replies now command decision_id db after =
      (case : RecoveryCaseModel F) × (get_case command.case_id db ≡ some case)
      × (((attempt : RecoveryAttemptModel) × (get_attempt command.idempotency_key db.attempts
              ≡ some attempt)
            × ((duplicate_result case attempt, db) ≡ after))
          ⊎ ((get_attempt command.idempotency_key db.attempts ≡ none)
              × Executed crypto replies now command decision_id case db after))

  module _ (replies : GatewayReplies) (now : ℕ) (command : RecoveryCommand) (decision_id : Option ℕ)
      (db : Db F) where
    pub execute_command-ok :
        {after : OrchestrationResult × Db F}
        → execute_command crypto replies now command decision_id db ≡ ok after
        → Outcomes replies now command decision_id db after
    unfolding execute_command
    execute_command-ok e = elim (Option-cases (get_case command.case_id db)) [
      | inl missing ↦ absurd (cc (rw missing at e))
      | inr (case, found) ↦ (
        case,
        found,
        elim (Option-cases (get_attempt command.idempotency_key db.attempts)) [
          | inl unused ↦ inr (
            unused,
            execute_new-ok crypto replies now command decision_id case db
                (rw unused at (rw found at e)),
          )
          | inr (attempt, used) ↦ inl (attempt, used, ok_injective (rw used at (rw found at e)))
        ],
      )
    ]

    pub execute_command-used :
        (case : RecoveryCaseModel F) (attempt : RecoveryAttemptModel)
        → get_case command.case_id db ≡ some case
        → get_attempt command.idempotency_key db.attempts ≡ some attempt
        → execute_command crypto replies now command decision_id db
          ≡ ok (duplicate_result case attempt, db)
    unfolding execute_command
    execute_command-used case attempt found used = rw (found, used)

    -- Afterwards the case and the key's attempt are there, and tell what the call told.
    abbrev Remembered : OrchestrationResult × Db F → Type 0
    Remembered after =
        (case : RecoveryCaseModel F) × (attempt : RecoveryAttemptModel) × (get_case command.case_id
            after.1
          ≡ some case)
        × (get_attempt command.idempotency_key after.1.attempts ≡ some attempt)
        × (duplicate_result case attempt ≡ record after.0 { is_duplicate_execution = true })

    conclude-Remembered :
        (case : RecoveryCaseModel F) (run : Execution F)
        → get_case command.case_id db ≡ some case
        → run.case_after.id ≡ case.id
        → Remembered (
            conclude crypto replies now command
              (attempt_of crypto replies now db command decision_id case)
              run
              (created crypto replies now db command case))
    unfolding save_case
    conclude-Remembered case run found same =
        let own : case.id ≡ command.case_id =
          (nat_beq_iff case.id command.case_id).0 (find-holds _ db.cases found) in
        let stored = finished_case run.case_after run.result now in
        (
          stored,
          finished_attempt (attempt_of crypto replies now db command decision_id case) run.result
              now,
          get_case-save_case stored db (same ∙ own) found,
          rw ((key_beq_iff command.idempotency_key command.idempotency_key).1 refl) refl,
          refl,
        )

    remembered :
        {after : OrchestrationResult × Db F}
        → Outcomes replies now command decision_id db after
        → Remembered after
    remembered (case, found, inl (attempt, used, same)) =
        subst Remembered same (case, attempt, found, used, refl)
    remembered (case, found, inr (unused, (started, run, _, _, ran, same))) =
        let (at, kept, _) = execute_action-OnlySchedules _ _ command _ replies now ran in
        subst Remembered same (conclude-Remembered case run found (ap (λ c. c.id) kept))

  -- Once a command has been executed, executing it again, at any time and with any answers of the
  -- gateway, changes nothing, sends no request, and returns the first result marked as a duplicate.
  pub execute_twice :
      (replies replies' : GatewayReplies) (now now' : ℕ) (command : RecoveryCommand)
      (decision_id decision_id' : Option ℕ) (db : Db F) {after : OrchestrationResult × Db F}
      → execute_command crypto replies now command decision_id db ≡ ok after
      → execute_command crypto replies' now' command decision_id' after.1
        ≡ ok (record after.0 { is_duplicate_execution = true }, after.1)
  execute_twice replies replies' now now' command decision_id decision_id' db {after = after} e =
      let (case, attempt, found, used, same) =
        remembered replies now command decision_id db
          (execute_command-ok replies now command decision_id db e) in
      rw same at
        (execute_command-used replies' now' command decision_id' after.1 case attempt found used)
