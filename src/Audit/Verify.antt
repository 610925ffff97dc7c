-- ===== src/Audit/Verify.antt =====
-- `verify_audit_chain_endpoint`: the walk over a merchant's events in ascending order.
use razor_flow.Prelude.{
  ℕ, Bool, true, false, not, ◌&&◌, ◌||◌, Option, none, some, List, [], ◌∷◌, nat_beq, if◌then◌else◌,
  ◌==◌, text_eq, Text, codes, length, leb,
}
use razor_flow.Audit.Ledger.{AuditEvent, genesis_prev_hash, events_of}

-- The loop: `none` when it ran to the end, or the sequence number where it broke off.
unfoldable pub verify_from : Text → List AuditEvent → Option ℕ
verify_from expected [] = none
verify_from expected (e ∷ events) =
    let rest = verify_from e.event_hash events in
    if not (e.prev_event_hash == expected)
      && nat_beq e.sequence_number 1
      && ((e.prev_event_hash == genesis_prev_hash) || (e.prev_event_hash == codes "GENESIS"))
    then rest
    else if not (e.prev_event_hash == expected)
    then some e.sequence_number
    else rest

-- `is_valid`, the number of events and `broken_at_sequence` of the answer.
pub record ChainReport : Type 0 where
  pub is_valid : Bool
  pub total_events : ℕ
  pub broken_at_sequence : Option ℕ

abbrev pub is_unbroken : Option ℕ → Bool
is_unbroken none = true
is_unbroken (some at) = false

-- `ORDER BY sequence_number ASC`
unfoldable pub insert_event : AuditEvent → List AuditEvent → List AuditEvent
insert_event e [] = e ∷ []
insert_event e (x ∷ events) =
    let rest = insert_event e events in
    if leb e.sequence_number x.sequence_number then e ∷ x ∷ events else x ∷ rest

unfoldable pub by_sequence : List AuditEvent → List AuditEvent
unfolding insert_event
by_sequence [] = []
by_sequence (e ∷ events) = insert_event e (by_sequence events)

unfoldable pub verify_audit_chain : ℕ → List AuditEvent → ChainReport
unfolding verify_from by_sequence
verify_audit_chain merchant ledger =
    let events = by_sequence (events_of merchant ledger) in
    let broken = verify_from genesis_prev_hash events in
    record {
      is_valid = is_unbroken broken;
      total_events = length events;
      broken_at_sequence = broken;
    }
