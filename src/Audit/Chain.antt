-- ===== src/Audit/Chain.antt =====
-- The chain invariant, and that recording keeps it for every merchant.
use razor_flow.Prelude.{
  Bool-cases, nat_beq, inl, inr, subst, ℕ, ◌+◌, ◌≡◌, ◌≢◌, refl, some, List, [], ◌∷◌, arith, Text,
  length, nat_beq_iff,
}
use razor_flow.Audit.Ledger.{
  AuditEvent, AuditEntry, Crypto, genesis_prev_hash, compute_audit_event_hash, latest, events_of,
  event_after, next_sequence, next_prev_hash, record_event,
}

-- The hash that the next event must cite.
abbrev pub head_hash : List AuditEvent → Text
head_hash [] = genesis_prev_hash
head_hash (e ∷ events) = e.event_hash

abbrev pub entry_of : AuditEvent → AuditEntry
entry_of e = record {
  entity_type = e.entity_type;
  entity_id = e.entity_id;
  action = e.action;
  actor_type = e.actor_type;
  actor_id = e.actor_id;
  payload = e.payload;
}

module _ (crypto : Crypto) where
  -- The events of one merchant, newest first: numbered without gaps from 1, each citing the hash
  -- of the one before it, and each carrying the hash of its own contents.
  abbrev pub IsChain : List AuditEvent → Type 0
  IsChain [] = Unit
  IsChain (e ∷ events) =
      (e.sequence_number ≡ length events + 1)
      × (e.prev_event_hash ≡ head_hash events)
      × (e.event_hash
          ≡ compute_audit_event_hash crypto e.sequence_number e.prev_event_hash (entry_of e)
              e.created_at)
      × IsChain events

  -- On a chain the query finds the newest event.
  latest-head :
      (e : AuditEvent) (events : List AuditEvent)
      → IsChain (e ∷ events)
      → latest (e ∷ events) ≡ some e
  unfolding latest
  latest-head e [] h = refl
  latest-head e (f ∷ events) h = rw (latest-head f events h.3) (ground arith)

  latest-chain :
      (events : List AuditEvent)
      → IsChain events
      → (next_sequence (latest events) ≡ length events + 1)
        × (next_prev_hash (latest events) ≡ head_hash events)
  unfolding latest
  latest-chain [] h = (refl, refl)
  latest-chain (e ∷ events) h = rw (latest-head e events h) (ground arith, refl)

  other_events :
      (merchant other : ℕ) (entry : AuditEntry) (now : ℕ) (ledger : List AuditEvent)
      → other ≢ merchant
      → events_of other (record_event crypto merchant entry now ledger) ≡ events_of other ledger
  unfolding record_event
  other_events merchant other entry now ledger apart = ground arith

  own_events :
      (merchant : ℕ) (entry : AuditEntry) (now : ℕ) (ledger : List AuditEvent)
      → events_of merchant (record_event crypto merchant entry now ledger)
        ≡ event_after crypto (latest (events_of merchant ledger)) merchant entry now
          ∷ events_of merchant ledger
  unfolding record_event
  own_events merchant entry now ledger = rw ((nat_beq_iff merchant merchant).1 refl)

  -- Recording an event of one merchant keeps that merchant's chain whole, and leaves every other
  -- merchant's chain as it was.
  pub record_event-IsChain :
      (merchant other : ℕ) (entry : AuditEntry) (now : ℕ) (ledger : List AuditEvent)
      → IsChain (events_of merchant ledger)
      → other ≢ merchant
      → IsChain (events_of merchant (record_event crypto merchant entry now ledger))
        × (length (events_of merchant (record_event crypto merchant entry now ledger))
            ≡ length (events_of merchant ledger) + 1)
        × (events_of other (record_event crypto merchant entry now ledger) ≡ events_of other ledger)
  record_event-IsChain merchant other entry now ledger chain apart =
      let (numbered, linked) = latest-chain (events_of merchant ledger) chain in
      (
        rw (own_events merchant entry now ledger) (numbered, linked, refl, chain),
        rw (own_events merchant entry now ledger) (omega arith),
        other_events merchant other entry now ledger apart,
      )

  -- So every merchant's chain stays whole.
  pub record_event-keeps :
      (merchant other : ℕ) (entry : AuditEntry) (now : ℕ) (ledger : List AuditEvent)
      → IsChain (events_of other ledger)
      → IsChain (events_of other (record_event crypto merchant entry now ledger))
  record_event-keeps merchant other entry now ledger whole =
      elim (Bool-cases (nat_beq other merchant)) [
        | inl same ↦
            let own = (nat_beq_iff other merchant).0 same in
            subst (λ m. IsChain (events_of other (record_event crypto m entry now ledger))) own
              (rw (own_events other entry now ledger) (
                let (numbered, linked) = latest-chain (events_of other ledger) whole in
                (numbered, linked, refl, whole)))
        | inr apart ↦
            rw
              (other_events merchant other entry now ledger
                (λ e. cc ((nat_beq_iff other merchant).1 e, apart)))
              whole
      ]
