-- ===== src/Audit/Tampering.antt =====
-- What the verification endpoint does not see.
use razor_flow.Prelude.{
  Bool, ap, leb, ℕ, ◌≡◌, refl, List, [], ◌∷◌, arith, Text, length, map, text_eq, Bool-cases,
  nat_beq, inl, inr, sym, ◌∙◌,
}
use razor_flow.Audit.Ledger.{AuditEvent, events_of}
use razor_flow.Audit.Verify.{by_sequence, insert_event, verify_from, verify_audit_chain}
use razor_flow.Audit.Accepts.{insert_event-nil, insert_event-before, insert_event-after}

-- A rewriting of an event that keeps its merchant, its number and the two stored hashes.
abbrev pub KeepsHashes : (AuditEvent → AuditEvent) → Type 0
KeepsHashes f =
    (e : AuditEvent)
    → ((f e).merchant_id ≡ e.merchant_id)
      × ((f e).sequence_number ≡ e.sequence_number)
      × ((f e).prev_event_hash ≡ e.prev_event_hash)
      × ((f e).event_hash ≡ e.event_hash)

module _ (f : AuditEvent → AuditEvent) (keeps : KeepsHashes f) where
  verify-map :
      (expected : Text) (events : List AuditEvent)
      → verify_from expected (map f events) ≡ verify_from expected events
  unfolding verify_from
  verify-map expected [] = refl
  verify-map expected (e ∷ events) =
      let (_, number, prev, hash) = keeps e in
      rw (number, prev, hash, verify-map e.event_hash events)

  events_of-map :
      (merchant : ℕ) (ledger : List AuditEvent)
      → events_of merchant (map f ledger) ≡ map f (events_of merchant ledger)
  events_of-map merchant [] = refl
  events_of-map merchant (e ∷ ledger) = elim (Bool-cases (nat_beq e.merchant_id merchant)) [
    | inl own ↦ simp ((keeps e).0, own, events_of-map merchant ledger)
    | inr foreign ↦ simp ((keeps e).0, foreign, events_of-map merchant ledger)
  ]

  same_order :
      (e x : AuditEvent) {b : Bool}
      → leb e.sequence_number x.sequence_number ≡ b
      → leb (f e).sequence_number (f x).sequence_number ≡ b
  same_order e x h = rw ((keeps e).1, (keeps x).1) h

  insert_event-map :
      (e : AuditEvent) (events : List AuditEvent)
      → insert_event (f e) (map f events) ≡ map f (insert_event e events)
  insert_event-map e [] = insert_event-nil (f e) ∙ ap (map f) (sym (insert_event-nil e))
  insert_event-map e (x ∷ events) = elim (Bool-cases (leb e.sequence_number x.sequence_number)) [
    | inl before ↦
        insert_event-before (f e) (f x) (map f events) (same_order e x before)
        ∙ ap (map f) (sym (insert_event-before e x events before))
    | inr after ↦
        insert_event-after (f e) (f x) (map f events) (same_order e x after)
        ∙ (ap (λ xs. f x ∷ xs) (insert_event-map e events)
            ∙ ap (map f) (sym (insert_event-after e x events after)))
  ]

  by_sequence-map :
      (events : List AuditEvent) → by_sequence (map f events) ≡ map f (by_sequence events)
  unfolding by_sequence
  by_sequence-map [] = refl
  by_sequence-map (e ∷ events) =
      rw (by_sequence-map events) (insert_event-map e (by_sequence events))

  length-map : (events : List AuditEvent) → length (map f events) ≡ length events
  length-map [] = refl
  length-map (e ∷ events) = omega (arith, length-map events)

  -- The endpoint does not see a change of contents: an event whose payload, action, actor or time
  -- is rewritten, with its stored hashes left alone, gives the same report.
  pub tampering_unseen :
      (merchant : ℕ) (ledger : List AuditEvent)
      → verify_audit_chain merchant (map f ledger) ≡ verify_audit_chain merchant ledger
  unfolding verify_audit_chain
  tampering_unseen merchant ledger =
      rw (events_of-map merchant ledger, by_sequence-map, verify-map, length-map)
