-- ===== src/Persistence/Store.antt =====
-- The database as a record of tables, each with its newest row first, and the session's calls.
use razor_flow.Prelude.{
  ℕ, Bool, is_some, Option, none, some, List, [], ◌∷◌, nat_beq, if◌then◌else◌, find, ◌==◌,
}
use razor_flow.Prelude.{Result, ok, raised, multiple_results_found}
use razor_flow.Audit.{AuditEvent}
use razor_flow.Persistence.Rows.{
  RecoveryCaseModel, RecoveryDecisionModel, RecoveryAttemptModel, RecoveryOutcomeModel, OrderModel,
  PaymentModel, IdempotencyKey, key_eq, CustomerModel, MerchantModel, RawWebhookEventModel,
}

-- `next_id` is the next UUID, which no row has; `gateway_calls` is not a table, it is the list of
-- the requests that have been sent to the payment gateway, by the key of their command.
pub record Db (F : Type 0) : Type 0 where
  pub cases : List (RecoveryCaseModel F)
  pub decisions : List RecoveryDecisionModel
  pub attempts : List RecoveryAttemptModel
  pub outcomes : List RecoveryOutcomeModel
  pub merchants : List MerchantModel
  pub customers : List (CustomerModel F)
  pub raw_events : List RawWebhookEventModel
  pub orders : List OrderModel
  pub payments : List PaymentModel
  pub ledger : List AuditEvent
  pub gateway_calls : List IdempotencyKey
  pub next_id : ℕ

-- `scalar_one_or_none` of the rows that a query selects.
abbrev pub scalar_one_or_none {ℓ} : {A : Type ℓ} → List A → Result (Option A)
scalar_one_or_none [] = ok none
scalar_one_or_none (a ∷ []) = ok (some a)
scalar_one_or_none (a ∷ b ∷ rest) = raised multiple_results_found

-- A write to the columns of the row with an id.
abbrev pub update_row {ℓ} : {A : Type ℓ} → (A → ℕ) → ℕ → A → List A → List A
update_row id_of k new [] = []
update_row id_of k new (row ∷ rows) =
    (if nat_beq (id_of row) k then new else row) ∷ update_row id_of k new rows

-- The column is unique.
abbrev pub get_attempt : IdempotencyKey → List RecoveryAttemptModel → Option RecoveryAttemptModel
get_attempt key = find (λ row. row.idempotency_key == key)

module _ {F : Type 0} where
  unfoldable pub save_case : RecoveryCaseModel F → Db F → Db F
  save_case case db = record db { cases = update_row (λ row. row.id) case.id case db.cases }

  -- `session.get(RecoveryCaseModel, id)`
  abbrev pub get_case : ℕ → Db F → Option (RecoveryCaseModel F)
  get_case id db = find (λ row. nat_beq row.id id) db.cases

  -- `session.get(MerchantModel, id)` is not None
  abbrev pub has_merchant : ℕ → Db F → Bool
  has_merchant id db = is_some (find (λ row. nat_beq row.id id) db.merchants)
