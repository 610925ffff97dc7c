-- ===== src/Api/Again.antt =====
-- The execution endpoint called again after a link was sent.
use razor_flow.Prelude.{
  ℕ, ◌+◌, map, List, nat_beq_iff, Bool-cases, inl, inr, ◌≡◌, ◌≢◌, refl, ap, true, false, Option,
  none, some, ◌∷◌, ◌==◌, arith, Text, find, select, nat_beq, ok,
}
use razor_flow.Domain.Enums.{RecoveryCaseStatus, RecoveryActionType, case_status_eq, action_eq}
use razor_flow.Domain.StateMachine.{can_transition}
use razor_flow.Audit.{Crypto}
use razor_flow.Persistence.{
  Db, MerchantModel, RecoveryCaseModel, RecoveryDecisionModel, OrderModel, IdempotencyKey,
  RecoveryAttemptModel, key_eq, key_beq_iff, get_case, get_attempt, has_merchant, save_case,
}
use razor_flow.Persistence.Lookup.{find-update_row}
use razor_flow.Webhooks.Dedup.{find-Member}
use razor_flow.Execution.{
  finished_case, GatewayPaymentLinkResult, link_result, GatewayReplies, OrchestrationResult,
}
use razor_flow.Api.Cases.{
  resolve_merchant_by_slug, resolve_case_by_id_or_link, is_case_of, resolve, is_decision_of,
  latest_attempt, command_of, execute_case_command,
}
use razor_flow.Api.Links.{IsUnapproved, approved_start, unapproved_start, link_sent, link_requested}

module _ {F : Type 0} (crypto : Crypto) (now : ℕ) (replies : GatewayReplies)
    (case : RecoveryCaseModel F) where
  -- The case after a link was requested for it when it was APPROVED.
  abbrev linked_case : RecoveryCaseModel F
  linked_case =
      finished_case (record case { status = RecoveryCaseStatus.executing })
        (link_result replies.link) now

  linked_waits :
      {link : GatewayPaymentLinkResult}
      → replies.link ≡ some link
      → link.is_success ≡ true
      → linked_case.status ≡ RecoveryCaseStatus.waiting_external
  unfolding can_transition
  linked_waits answered accepted = rw (answered, accepted) refl

-- The key of a command for an attempt.
abbrev pub key_of : {F : Type 0} → RecoveryCaseModel F → RecoveryDecisionModel → ℕ → IdempotencyKey
key_of case decision attempt_number = record {
  case_id = case.id;
  attempt_number = attempt_number;
  action_type = decision.authorized_action;
}

get_attempt-other :
    (key : IdempotencyKey) (attempt : RecoveryAttemptModel) (attempts : List RecoveryAttemptModel)
    → attempt.idempotency_key ≢ key
    → get_attempt key attempts ≡ none
    → get_attempt key (attempt ∷ attempts) ≡ none
get_attempt-other key attempt attempts apart unused =
    elim (Bool-cases (attempt.idempotency_key == key)) [
      | inl same ↦ absurd (apart ((key_beq_iff attempt.idempotency_key key).0 same))
      | inr other ↦ rw other unused
    ]

key_next :
    (n : ℕ) {id : ℕ} {action : RecoveryActionType}
    → ¬ (
        ◌≡◌ {A = IdempotencyKey}
          (record { case_id = id; attempt_number = n; action_type = action })
          (record { case_id = id; attempt_number = n + 1; action_type = action }))
key_next n e = let same = ap (λ k. k.attempt_number) e in omega arith

waiting-IsUnapproved :
    (s : RecoveryCaseStatus) → s ≡ RecoveryCaseStatus.waiting_external → IsUnapproved s
waiting-IsUnapproved s e = ground arith

module _ {F : Type 0} (parse_uuid : Text → Option ℕ) (crypto : Crypto) (now later : ℕ)
    (replies replies' : GatewayReplies) (db : Db F) where
  -- Two requests to execute an APPROVED case send two payment links for one decision: where the
  -- latest decision is a PAYMENT_LINK, the case, named by its id, is executed with a link that the
  -- gateway accepts and then waits, and neither of the next two keys was used, the same request made
  -- again is no duplicate, at any time and whatever the gateway answers then. It sends a second
  -- request under a new key, and both attempts that are stored cite the same decision.
  pub execute_again :
      (identifier slug : Text) (merchant : MerchantModel) (case : RecoveryCaseModel F)
      (decision : RecoveryDecisionModel) (order : OrderModel) (link : GatewayPaymentLinkResult)
      → resolve_merchant_by_slug db.merchants slug ≡ ok merchant
      → parse_uuid identifier ≡ some case.id
      → find (is_case_of merchant.id case.id) db.cases ≡ some case
      → get_case case.id db ≡ some case
      → latest_attempt (select (is_decision_of merchant.id case.id) db.decisions) ≡ some decision
      → decision.authorized_action ≡ RecoveryActionType.payment_link
      → case.status ≡ RecoveryCaseStatus.approved
      → get_attempt (key_of case decision (case.current_attempt_count + 1)) db.attempts ≡ none
      → get_attempt (key_of case decision (case.current_attempt_count + 1 + 1)) db.attempts ≡ none
      → find (λ row. nat_beq row.id case.order_id) db.orders ≡ some order
      → has_merchant case.merchant_id db ≡ true
      → replies.link ≡ some link
      → link.is_success ≡ true
      → (first : OrchestrationResult × Db F) × (second : OrchestrationResult × Db F)
        × (execute_case_command parse_uuid crypto now replies identifier slug db ≡ ok first)
        × (execute_case_command parse_uuid crypto later replies' identifier slug first.1
            ≡ ok second)
        × (first.0.case_status ≡ RecoveryCaseStatus.waiting_external)
        × (first.0.is_duplicate_execution ≡ false)
        × (second.0.is_duplicate_execution ≡ false)
        × (second.1.gateway_calls
            ≡ key_of case decision (case.current_attempt_count + 1 + 1)
              ∷ key_of case decision (case.current_attempt_count + 1)
              ∷ db.gateway_calls)
        × (map (λ row. row.decision_id) second.1.attempts
            ≡ some decision.id ∷ some decision.id ∷ map (λ row. row.decision_id) db.attempts)
  unfolding resolve resolve_case_by_id_or_link save_case
  execute_again identifier slug merchant case decision order link named parsed owned here latest
        acts approved unused unused' ordered known answered accepted =
      let command = command_of parse_uuid crypto now case decision in
      let linked = linked_case crypto now replies case in
      let first =
        link_sent crypto now replies db command case (some decision.id)
          RecoveryCaseStatus.executing in
      let waits = linked_waits crypto now replies case answered accepted in
      let free = waiting-IsUnapproved linked.status waits in
      let test = (find-Member (is_case_of merchant.id case.id) db.cases owned).1 in
      let owned' =
        find-update_row (is_case_of merchant.id case.id) (λ row. row.id) case.id linked test
          db.cases refl owned in
      let same = (nat_beq_iff case.id case.id).1 refl in
      let here' =
        find-update_row (λ row. nat_beq row.id case.id) (λ row. row.id) case.id linked same db.cases
          refl here in
      let once =
        link_requested parse_uuid crypto now replies db identifier slug merchant case decision order
          RecoveryCaseStatus.executing (rw (named, parsed, owned) refl) latest acts
          (rw approved refl) (rw approved approved_start) here unused ordered known in
      let twice =
        link_requested parse_uuid crypto later replies' first.1 identifier slug merchant linked
          decision order linked.status (rw (named, parsed, owned') refl) latest acts free.0
          (unapproved_start linked.status free) here'
          (get_attempt-other _ _ db.attempts (key_next (case.current_attempt_count + 1)) unused')
          ordered known in
      (
        first,
        link_sent crypto later replies' first.1 (command_of parse_uuid crypto later linked decision)
            linked (some decision.id) linked.status,
        once,
        twice,
        waits,
        refl,
        refl,
        refl,
        refl,
      )
