-- ===== src/Tests/WorkerRuns.antt =====
-- Events that the pipeline processes.
use razor_flow.Prelude.{
  ◌≤◌, length, select, inr, Bool-cases, ℕ, ◌≡◌, refl, inl, false, Option, none, some, [], ◌∷◌,
  codes, ok, arith, Member, Error,
}
use razor_flow.Prelude.Json.{Json, array, no_items}
use razor_flow.Prelude.Python.{lower, upper, strip}
use razor_flow.Domain.Enums.{OrderStatus, RecoveryCaseStatus, FailureCategory}
use razor_flow.Domain.StateMachine.{validate_transition, can_transition}
use razor_flow.Persistence.{RecoveryCaseModel, Db, OrderModel, save_case}
use razor_flow.Intake.OneOpen.{CasesOk}
use razor_flow.Intake.{
  is_open_case, new_case, create_or_update_recovery_case, get_active_case_for_order,
}
use razor_flow.Webhooks.{parse_payload, classify_razorpay_failure, classify_texts}
use razor_flow.Sync.{sync_customer, sync_order, sync_payment, enrich_customer_context}
use razor_flow.Worker.{PipelineResult, execute_ingestion_pipeline, synchronize}
use razor_flow.Worker.Replay.{process_twice}
use razor_flow.Worker.Histories.{processed, no_more, next, paid_forever, one_open_case}
use razor_flow.Worker.Late.{notes_list-lost}
use razor_flow.Worker.PaidOrder.{paid_order-reopened}
use razor_flow.Tests.Fixtures.{stored_case, order, payment, fixed_point, plain_crypto, soon, later}
use razor_flow.Tests.WebhookFixtures.{
  plain_platform, failed_payload, payment_payload, failed_entity, db_waiting, event_row,
}
use razor_flow.Tests.SyncRuns.{payload_saying}

abbrev unpaid_db : Db ℕ
unpaid_db = db_waiting failed_payload

processed_once :
    (r : PipelineResult × Db ℕ) × (execute_ingestion_pipeline plain_platform fixed_point
        plain_crypto soon [] 8 unpaid_db
      ≡ ok r)
    × (r.0 ≡ PipelineResult.success 3 10 (some 1))
unfolding execute_ingestion_pipeline parse_payload classify_razorpay_failure classify_texts upper
    lower strip synchronize sync_customer sync_order sync_payment enrich_customer_context
    create_or_update_recovery_case get_active_case_for_order save_case
processed_once = (_, refl, refl)

process_twice_example :
    execute_ingestion_pipeline plain_platform fixed_point plain_crypto later [] 8 processed_once.0.1
    ≡ ok (PipelineResult.already_processed (codes "evt_0"), processed_once.0.1)
process_twice_example =
    process_twice plain_platform fixed_point plain_crypto soon later [] [] 8 unpaid_db
      (event_row 8 failed_payload) refl processed_once.1

-- The order is PAID, and no case is active for it.
abbrev paid_order : OrderModel
paid_order = record order { status = OrderStatus.paid }

abbrev paid_db : Db ℕ
paid_db = record (db_waiting failed_payload) { cases = []; orders = paid_order ∷ [] }

paid_run :
    (r : PipelineResult × Db ℕ) × (execute_ingestion_pipeline plain_platform fixed_point
        plain_crypto soon [] 8 paid_db
      ≡ ok r)
unfolding execute_ingestion_pipeline parse_payload classify_razorpay_failure classify_texts upper
    lower strip synchronize sync_customer sync_order sync_payment enrich_customer_context
    create_or_update_recovery_case get_active_case_for_order save_case validate_transition
    can_transition
paid_run = (_, refl)

paid_forever_example : Member paid_order paid_run.0.1.orders
paid_forever_example =
    paid_forever plain_platform fixed_point plain_crypto paid_order (omega arith, tt) (inl refl)
      refl (next (processed soon [] 8 paid_run.1) no_more)

none_active : get_active_case_for_order 7 3 paid_db ≡ ok none
unfolding get_active_case_for_order
none_active = refl

paid_order-reopened_example :
    (case : Option ℕ) × (after : Db ℕ) × (synchronize plain_platform fixed_point plain_crypto soon
        [] 7
        (payload_saying (codes "failed"))
        paid_db
      ≡ ok ((paid_order, payment, case), after))
    × (case ≡ some 10)
    × (after.cases
        ≡ new_case plain_crypto soon 7 paid_order payment none FailureCategory.unknown false 10
            RecoveryCaseStatus.diagnosing
          ∷ [])
paid_order-reopened_example =
    paid_order-reopened plain_platform fixed_point plain_crypto soon [] 7
      (payload_saying (codes "failed")) paid_db (codes "order_A") (codes "pay_A") paid_order payment
      refl refl refl refl refl refl refl refl refl none_active

-- A failed payment whose notes are an empty list.
abbrev listed_entity : Json
listed_entity = failed_entity (codes "pay_B") (codes "order_A") (array no_items)

abbrev listed_payload : Json
listed_payload = payment_payload (codes "payment.failed") listed_entity

abbrev listed_db : Db ℕ
listed_db = db_waiting listed_payload

notes_list-lost_example :
    (e : Error) × (after : Db ℕ) × (execute_ingestion_pipeline plain_platform fixed_point
        plain_crypto soon [] 8 listed_db
      ≡ ok (PipelineResult.parse_failed e, after))
    × (execute_ingestion_pipeline plain_platform fixed_point plain_crypto soon [] 8 after
        ≡ ok (PipelineResult.already_processed (codes "evt_0"), after))
    × (after.orders ≡ listed_db.orders)
    × (after.payments ≡ listed_db.payments)
    × (after.customers ≡ listed_db.customers)
    × (after.cases ≡ listed_db.cases)
notes_list-lost_example =
    notes_list-lost plain_platform fixed_point plain_crypto soon [] 8 listed_db
      (event_row 8 listed_payload) listed_entity no_items refl refl refl refl

unpaid_db-CasesOk : CasesOk unpaid_db
unpaid_db-CasesOk = (
  (omega arith, tt),
  λ merchant order. elim (Bool-cases (is_open_case merchant order stored_case)) [
    | inl on ↦ rw on (omega arith)
    | inr off ↦ rw off (omega arith)
  ],
)

one_open_case_example :
    (length (select (is_open_case 7 3) processed_once.0.1.cases) ≤ 1)
    × ((found : Option (RecoveryCaseModel ℕ)) × (get_active_case_for_order 7 3 processed_once.0.1
          ≡ ok found))
one_open_case_example =
    one_open_case plain_platform fixed_point plain_crypto 7 3 unpaid_db-CasesOk
      (next (processed soon [] 8 processed_once.1) no_more)
