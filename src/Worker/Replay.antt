-- ===== src/Worker/Replay.antt =====
-- A webhook is processed once, and PAID orders are forever.
use razor_flow.Prelude.{
  ℕ, ◌≡◌, refl, sym, ap, ◌∙◌, subst, Bool, true, some, Text, Option-cases, inl, inr, find, ok,
  ok_injective, nat_beq, nat_beq_iff,
}
use razor_flow.Domain.Floats.{Floats}
use razor_flow.Audit.{Crypto}
use razor_flow.Persistence.{Db, RawWebhookEventModel, update_row}
use razor_flow.Webhooks.{Platform}
use razor_flow.Persistence.Lookup.{find-update_row}
use razor_flow.Webhooks.Dedup.{find-Member}
use razor_flow.Sync.Paid.{OrdersFall, PaidKept}
use razor_flow.Worker.Pipeline.{PipelineResult, execute_ingestion_pipeline}
use razor_flow.Worker.Processed.{process_event-cases}

abbrev has_id : ℕ → RawWebhookEventModel → Bool
has_id id row = nat_beq row.id id

module _ (py : Platform) (fl : Floats) (crypto : Crypto) where
  open fl use {F}

  -- An event that is marked is skipped.
  skipped :
      (now : ℕ) (fresh : Text) (id : ℕ) (db : Db F) (row : RawWebhookEventModel)
      → find (has_id id) db.raw_events ≡ some row
      → row.processed ≡ true
      → execute_ingestion_pipeline py fl crypto now fresh id db
        ≡ ok (PipelineResult.already_processed row.event_id, db)
  unfolding execute_ingestion_pipeline
  skipped now fresh id db row look marked = rw (look, marked) refl

  -- An event that was processed, whatever came of it, is skipped when it is processed again, and
  -- the database stays as it is: a task that the queue repeats changes nothing.
  pub process_twice :
      (now now' : ℕ) (fresh fresh' : Text) (id : ℕ) (db : Db F) (row : RawWebhookEventModel)
      {r : PipelineResult × Db F}
      → find (λ r. nat_beq r.id id) db.raw_events ≡ some row
      → execute_ingestion_pipeline py fl crypto now fresh id db ≡ ok r
      → execute_ingestion_pipeline py fl crypto now' fresh' id r.1
        ≡ ok (PipelineResult.already_processed row.event_id, r.1)
  unfolding execute_ingestion_pipeline
  process_twice now now' fresh fresh' id db row {r} look h =
      let named = (nat_beq_iff row.id id).0 (find-Member (has_id id) db.raw_events look).1 in
      elim (process_event-cases py fl crypto now fresh row db (rw look at h)) [
        | inl (before, same) ↦
            skipped now' fresh' id r.1 row (ap (λ x. find (has_id id) x.raw_events) same ∙ look)
              before
        | inr ((new, e, marked, event, rows), _) ↦
            let kept : r.1.raw_events ≡ update_row (λ r. r.id) id new db.raw_events =
              rw⁻¹ named rows in
            skipped now' fresh' id r.1 new
              (ap (find (has_id id)) kept
                ∙ find-update_row (has_id id) (λ r. r.id) id new
                    ((nat_beq_iff new.id id).1 (e ∙ named)) db.raw_events named look)
              marked
            ∙ ap (λ t. ok (PipelineResult.already_processed t, r.1)) event
      ]

  -- The ids of the orders falling, as new rows keep them, no run of the pipeline changes an order
  -- that is PAID, and the ids still fall.
  pub pipeline-PaidKept :
      (now : ℕ) (fresh : Text) (id : ℕ) (db : Db F) {r : PipelineResult × Db F}
      → OrdersFall db
      → execute_ingestion_pipeline py fl crypto now fresh id db ≡ ok r
      → PaidKept db r.1
  unfolding execute_ingestion_pipeline
  pipeline-PaidKept now fresh id db {r} d h = elim (Option-cases (find (has_id id) db.raw_events)) [
    | inl missing ↦ subst (λ x. PaidKept db x.1) (ok_injective (rw missing at h)) (d, λ paid m p. m)
    | inr (row, look) ↦ elim (process_event-cases py fl crypto now fresh row db (rw look at h)) [
      | inl (before, same) ↦ subst (PaidKept db) (sym same) (d, λ paid m p. m)
      | inr (_, keeps) ↦ keeps d
    ]
  ]
