-- ===== src/Worker/Histories.antt =====
-- Webhooks in any order: receptions and runs of the pipeline, one after another.
use razor_flow.Prelude.{
  ◌≤◌, length, select, refl, none, some, [], ◌∷◌, arith, ℕ, ◌≡◌, Bool, Option, List, Text, Member,
  ok,
}
use razor_flow.Domain.Enums.{OrderStatus}
use razor_flow.Domain.Floats.{Floats}
use razor_flow.Audit.{Crypto}
use razor_flow.Persistence.{
  scalar_one_or_none, RecoveryCaseModel, Db, OrderModel, RawWebhookEventModel,
}
use razor_flow.Webhooks.{Platform, Headers, ingest_razorpay_webhook}
use razor_flow.Webhooks.Twice.{ingest-orders}
use razor_flow.Persistence.Ids.{Descending-le}
use razor_flow.Sync.Paid.{OrdersFall, order_id, PaidKept}
use razor_flow.Worker.Pipeline.{PipelineResult, execute_ingestion_pipeline}
use razor_flow.Intake.{is_open_case, get_active_case_for_order}
use razor_flow.Intake.OneOpen.{CasesOk, CasesOk-same}
use razor_flow.Worker.OpenCases.{pipeline-CasesOk}
use razor_flow.Worker.Replay.{pipeline-PaidKept}

scalar_total :
    {A : Type 0} (rows : List A)
    → length rows ≤ 1
    → (found : Option A) × (scalar_one_or_none rows ≡ ok found)
scalar_total [] h = (none, refl)
scalar_total (x ∷ []) h = (some x, refl)
scalar_total (x ∷ y ∷ rows) h = absurd (omega arith)

module _ (py : Platform) (fl : Floats) (crypto : Crypto) where
  open fl use {F}

  -- One call that returned: a webhook is received, or a stored event is processed.
  pub data WebhookStep : Db F → Db F → Type 0 where
    received :
        {db : Db F} {r : (Bool × Option RawWebhookEventModel) × Db F}
        (concurrent : List RawWebhookEventModel) (slug raw_body signature : Text)
        (headers : Headers)
        → ingest_razorpay_webhook py concurrent slug raw_body signature headers db ≡ ok r
        → WebhookStep db r.1
    processed :
        {db : Db F} {r : PipelineResult × Db F} (now : ℕ) (fresh : Text) (id : ℕ)
        → execute_ingestion_pipeline py fl crypto now fresh id db ≡ ok r
        → WebhookStep db r.1

  pub data History : Db F → Db F → Type 0 where
    no_more : {db : Db F} → History db db
    next : {a b c : Db F} → WebhookStep a b → History b c → History a c

  step-PaidKept : {db after : Db F} → OrdersFall db → WebhookStep db after → PaidKept db after
  step-PaidKept {db} d (received {r} concurrent slug raw_body signature headers h) =
      let (same, _, more) = ingest-orders py concurrent slug raw_body signature headers db h in
      (rw same (Descending-le order_id _ _ _ more d), λ paid m p. rw same m)
  step-PaidKept {db} d (processed now fresh id h) =
      pipeline-PaidKept py fl crypto now fresh id db d h

  -- An order that is PAID stays in the table as it is, PAID included, whatever webhooks are received
  -- and processed after, in any order and any number: no late event downgrades it. The ids of the
  -- orders fall at the start, as new rows keep them.
  pub paid_forever :
      {db after : Db F} (paid : OrderModel)
      → OrdersFall db
      → Member paid db.orders
      → paid.status ≡ OrderStatus.paid
      → History db after
      → Member paid after.orders
  paid_forever paid d m p no_more = m
  paid_forever paid d m p (next s history) =
      let (d', kept) = step-PaidKept d s in paid_forever paid d' (kept paid m p) p history

  step-CasesOk : {db after : Db F} → CasesOk db → WebhookStep db after → CasesOk after
  step-CasesOk {db} good (received {r} concurrent slug raw_body signature headers h) =
      let (_, same, more) = ingest-orders py concurrent slug raw_body signature headers db h in
      CasesOk-same db r.1 same more good
  step-CasesOk {db} good (processed now fresh id h) =
      pipeline-CasesOk py fl crypto now fresh id db h good

  History-CasesOk : {db after : Db F} → CasesOk db → History db after → CasesOk after
  History-CasesOk good no_more = good
  History-CasesOk good (next s history) = History-CasesOk (step-CasesOk good s) history

  -- Where the ids of the cases fall and no order has two open cases, no history of webhooks, in any
  -- order and any number, gives an order of a merchant a second open case: there is at most one case
  -- that is not RECOVERED, UNRECOVERABLE, EXPIRED or STOPPED. The look-up of the active case for the
  -- order, which raises on two, returns.
  pub one_open_case :
      {db after : Db F} (merchant order : ℕ)
      → CasesOk db
      → History db after
      → (length (select (is_open_case merchant order) after.cases) ≤ 1)
        × ((found : Option (RecoveryCaseModel F)) × (get_active_case_for_order merchant order after
              ≡ ok found))
  unfolding get_active_case_for_order
  one_open_case merchant order good history =
      let one = (History-CasesOk good history).1 merchant order in (one, scalar_total _ one)
