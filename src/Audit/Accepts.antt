-- ===== src/Audit/Accepts.antt =====
-- What the verification endpoint accepts.
use razor_flow.Prelude.{
  false, ◌+◌, ◌<◌, ◌≤◌, leb, ℕ, ◌≡◌, refl, true, none, List, [], ◌∷◌, ◌++◌, arith, Text, length,
  reverse, reverse-cons, ◌==◌, text_eq, text_beq_refl, text_beq_sound, Bool-cases, inl, inr, sym,
  ◌∙◌, ◌≢◌, ◌↔◌, All,
}
use razor_flow.Audit.Ledger.{AuditEvent, Crypto, genesis_prev_hash, events_of}
use razor_flow.Audit.Verify.{by_sequence, insert_event, verify_from, verify_audit_chain}
use razor_flow.Audit.Chain.{IsChain, head_hash}

-- Every event cites the hash of the one before it; the first cites `expected`.
abbrev pub Linked : Text → List AuditEvent → Type 0
Linked expected [] = Unit
Linked expected (e ∷ events) = (e.prev_event_hash ≡ expected) × Linked e.event_hash events

-- The hash that the walk expects after a list of events.
abbrev last_hash : Text → List AuditEvent → Text
last_hash expected [] = expected
last_hash expected (e ∷ events) = last_hash e.event_hash events

Linked-append :
    (expected : Text) (events : List AuditEvent) (e : AuditEvent)
    → Linked expected events
    → e.prev_event_hash ≡ last_hash expected events
    → Linked expected (events ++ (e ∷ []))
Linked-append expected [] e h p = (p, tt)
Linked-append expected (x ∷ events) e (link, h) p = (link, Linked-append x.event_hash events e h p)

last_hash-append :
    (expected : Text) (events : List AuditEvent) (e : AuditEvent)
    → last_hash expected (events ++ (e ∷ [])) ≡ e.event_hash
last_hash-append expected [] e = refl
last_hash-append expected (x ∷ events) e = last_hash-append x.event_hash events e

verify-Linked :
    (expected : Text) (events : List AuditEvent)
    → Linked expected events
    → verify_from expected events ≡ none
unfolding verify_from
verify-Linked expected [] h = refl
verify-Linked expected (e ∷ events) (link, h) =
    rw (link, text_beq_refl expected) (verify-Linked e.event_hash events h)

verify_sound :
    (expected : Text) (events : List AuditEvent)
    → All (λ e. e.sequence_number ≢ 1) events
    → verify_from expected events ≡ none
    → Linked expected events
unfolding verify_from
verify_sound expected [] later h = tt
verify_sound expected (e ∷ events) (later, laters) h =
    elim (Bool-cases (e.prev_event_hash == expected)) [
      | inl same ↦ (text_beq_sound _ _ same, verify_sound e.event_hash events laters (rw same at h))
      | inr differs ↦ absurd (ground arith)
    ]

-- Among events not numbered 1, for which the walk has no exception, it runs to the end exactly
-- when every event cites the hash of the one before it.
pub verify_from_iff :
    (expected : Text) (events : List AuditEvent)
    → All (λ e. e.sequence_number ≢ 1) events
    → (verify_from expected events ≡ none) ↔ Linked expected events
verify_from_iff expected events later =
    (verify_sound expected events later, verify-Linked expected events)

pub insert_event-nil : (e : AuditEvent) → insert_event e [] ≡ e ∷ []
unfolding insert_event
insert_event-nil e = refl

pub insert_event-before :
    (e x : AuditEvent) (events : List AuditEvent)
    → leb e.sequence_number x.sequence_number ≡ true
    → insert_event e (x ∷ events) ≡ e ∷ x ∷ events
unfolding insert_event
insert_event-before e x events h = rw h refl

pub insert_event-after :
    (e x : AuditEvent) (events : List AuditEvent)
    → leb e.sequence_number x.sequence_number ≡ false
    → insert_event e (x ∷ events) ≡ x ∷ insert_event e events
unfolding insert_event
insert_event-after e x events h = rw h refl

-- An event that is newer than all others comes last.
insert_event-last :
    (e : AuditEvent) (events : List AuditEvent)
    → All (λ x. x.sequence_number < e.sequence_number) events
    → insert_event e events ≡ events ++ (e ∷ [])
unfolding insert_event
insert_event-last e [] h = refl
insert_event-last e (x ∷ events) (h, hs) = rw (insert_event-last e events hs) (ground arith)

All-below :
    (m n : ℕ) (events : List AuditEvent)
    → m ≤ n
    → All (λ x. x.sequence_number < m) events
    → All (λ x. x.sequence_number < n) events
All-below m n [] le h = tt
All-below m n (x ∷ events) le (h, hs) = (omega (arith, h, le), All-below m n events le hs)

All-append :
    (n : ℕ) (events : List AuditEvent) (e : AuditEvent)
    → All (λ x. x.sequence_number < n) events
    → e.sequence_number < n
    → All (λ x. x.sequence_number < n) (events ++ (e ∷ []))
All-append n [] e h p = (p, tt)
All-append n (x ∷ events) e (h, hs) p = (h, All-append n events e hs p)

module _ (crypto : Crypto) where
  chain-below :
      (events : List AuditEvent)
      → IsChain crypto events
      → All (λ x. x.sequence_number < length events + 1) (reverse events)
  chain-below [] h = tt
  chain-below (e ∷ events) h = rw reverse-cons (
      All-append (length (e ∷ events) + 1) (reverse events) e
        (All-below (length events + 1) (length (e ∷ events) + 1) (reverse events) (omega arith)
          (chain-below events h.3))
        (omega (arith, h.0)))

  -- A chain is stored in the order of its numbers.
  by_sequence-chain :
      (events : List AuditEvent) → IsChain crypto events → by_sequence events ≡ reverse events
  unfolding by_sequence
  by_sequence-chain [] h = refl
  by_sequence-chain (e ∷ events) h =
      rw (by_sequence-chain events h.3, reverse-cons)
        (insert_event-last e (reverse events) (rw h.0 (chain-below events h.3)))

  last_hash-chain :
      (events : List AuditEvent) → last_hash genesis_prev_hash (reverse events) ≡ head_hash events
  last_hash-chain [] = refl
  last_hash-chain (e ∷ events) =
      rw reverse-cons (last_hash-append genesis_prev_hash (reverse events) e)

  chain-Linked :
      (events : List AuditEvent) → IsChain crypto events → Linked genesis_prev_hash (reverse events)
  chain-Linked [] h = tt
  chain-Linked (e ∷ events) h = rw reverse-cons (
      Linked-append genesis_prev_hash (reverse events) e (chain-Linked events h.3)
        (h.1 ∙ sym (last_hash-chain events)))

  -- The endpoint reports every ledger whose events form a chain as valid.
  pub verify_audit_chain-valid :
      (merchant : ℕ) (ledger : List AuditEvent)
      → IsChain crypto (events_of merchant ledger)
      → (verify_audit_chain merchant ledger).is_valid ≡ true
  unfolding verify_audit_chain
  verify_audit_chain-valid merchant ledger h = rw (
    by_sequence-chain (events_of merchant ledger) h,
    verify-Linked genesis_prev_hash _ (chain-Linked (events_of merchant ledger) h),
  )
