-- ===== src/Execution/Dispatch.antt =====
-- Over any sequence of commands the gateway gets at most one request for each key.
use razor_flow.Prelude.{
  ℕ, ◌≡◌, refl, sym, ◌∙◌, ◌⊎◌, inl, inr, Option, none, List, [], ◌∷◌, ◌++◌, map, ◌==◌, Bool-cases,
  Member, All, ok, subst,
}
use razor_flow.Audit.{Crypto}
use razor_flow.Persistence.{
  Db, RecoveryCommand, RecoveryAttemptModel, IdempotencyKey, key_eq, key_beq_iff, get_attempt,
  save_case,
}
use razor_flow.Execution.Executors.{GatewayReplies}
use razor_flow.Execution.Orchestrator.{
  OrchestrationResult, execute_command, finished_attempt, attempt_of,
}
use razor_flow.Execution.Steps.{execute_action-OnlySchedules}
use razor_flow.Execution.Idempotence.{Outcomes, execute_command-ok}

abbrev pub Distinct : List IdempotencyKey → Type 0
Distinct [] = Unit
Distinct (k ∷ keys) = (¬ (Member k keys)) × Distinct keys

abbrev pub keys_of : List RecoveryAttemptModel → List IdempotencyKey
keys_of = map (λ row. row.idempotency_key)

-- No key was sent twice, no key has two attempts, and every key that was sent has an attempt.
abbrev pub IsAtMostOnce : List IdempotencyKey → List RecoveryAttemptModel → Type 0
IsAtMostOnce calls attempts =
    Distinct calls × Distinct (keys_of attempts) × All (λ k. Member k (keys_of attempts)) calls

unused_key :
    (key : IdempotencyKey) (attempts : List RecoveryAttemptModel)
    → get_attempt key attempts ≡ none
    → ¬ (Member key (keys_of attempts))
unused_key key [] e m = m
unused_key key (row ∷ attempts) e m = elim (Bool-cases (row.idempotency_key == key)) [
  | inl same ↦ absurd (cc (rw same at e))
  | inr differs ↦ elim m [
    | inl h ↦ absurd (cc ((key_beq_iff row.idempotency_key key).1 (sym h) ∙ refl, differs))
    | inr below ↦ unused_key key attempts (rw differs at e) below
  ]
]

All-weaken :
    (key : IdempotencyKey) (keys calls : List IdempotencyKey)
    → All (λ k. Member k keys) calls
    → All (λ k. Member k (key ∷ keys)) calls
All-weaken key keys [] h = tt
All-weaken key keys (k ∷ calls) (m, h) = (inr m, All-weaken key keys calls h)

not_sent :
    (key : IdempotencyKey) (keys calls : List IdempotencyKey)
    → ¬ (Member key keys)
    → All (λ k. Member k keys) calls
    → ¬ (Member key calls)
not_sent key keys [] fresh h m = m
not_sent key keys (k ∷ calls) fresh (m, h) sent = elim sent [
  | inl same ↦ fresh (subst (λ x. Member x keys) (sym same) m)
  | inr below ↦ not_sent key keys calls fresh h below
]

add_attempt :
    (row : RecoveryAttemptModel) (calls sent : List IdempotencyKey)
    (attempts : List RecoveryAttemptModel)
    → get_attempt row.idempotency_key attempts ≡ none
    → (sent ≡ []) ⊎ (sent ≡ row.idempotency_key ∷ [])
    → IsAtMostOnce calls attempts
    → IsAtMostOnce (sent ++ calls) (row ∷ attempts)
add_attempt row calls sent attempts unused how (once, keys, covered) =
    let fresh = unused_key row.idempotency_key attempts unused in
    let more = All-weaken row.idempotency_key (keys_of attempts) calls covered in
    elim how [
      | inl silent ↦ rw silent (once, (fresh, keys), more)
      | inr one ↦ rw one (
        (not_sent row.idempotency_key (keys_of attempts) calls fresh covered, once),
        (fresh, keys),
        (inl refl, more),
      )
    ]

module _ {F : Type 0} (crypto : Crypto) where
  abbrev pub Sound : Db F → Type 0
  Sound db = IsAtMostOnce db.gateway_calls db.attempts

  -- Commands one after another, each with its time and with its answers of the gateway. A command
  -- that raises is rolled back, and is no step.
  pub data Session : Db F → Db F → Type 0 where
    stop : {db : Db F} → Session db db
    next :
        {db db' : Db F} (replies : GatewayReplies) (now : ℕ) (command : RecoveryCommand)
        (decision_id : Option ℕ) (after : OrchestrationResult × Db F)
        → execute_command crypto replies now command decision_id db ≡ ok after
        → Session after.1 db'
        → Session db db'

  execute-Sound :
      (replies : GatewayReplies) (now : ℕ) (command : RecoveryCommand) (decision_id : Option ℕ)
      (db : Db F) (after : OrchestrationResult × Db F)
      → Outcomes crypto replies now command decision_id db after
      → Sound db
      → Sound after.1
  unfolding save_case
  execute-Sound replies now command decision_id db after (case, found, inl (attempt, used, same))
        h =
      subst (λ x. Sound x.1) same h
  execute-Sound replies now command decision_id db after
        (case, found, inr (unused, (started, run, _, _, ran, same))) h =
      let (_, _, how) = execute_action-OnlySchedules _ _ command _ replies now ran in
      subst (λ x. Sound x.1) same
        (add_attempt
          (finished_attempt (attempt_of crypto replies now db command decision_id case) run.result
            now)
          db.gateway_calls run.calls db.attempts unused how h)

  -- Whatever commands are executed, in whatever order and however often, the gateway gets at most
  -- one request for each idempotency key, and each key has at most one attempt.
  pub Session-once : {db db' : Db F} → Session db db' → Sound db → Sound db'
  Session-once stop h = h
  Session-once (next {db = db} replies now command decision_id after e rest) h = Session-once rest (
      execute-Sound replies now command decision_id db after
        (execute_command-ok crypto replies now command decision_id db e) h)
