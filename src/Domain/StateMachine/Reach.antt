-- ===== src/Domain/StateMachine/Reach.antt =====
-- What the case state machine guarantees along every sequence of allowed transitions.
use razor_flow.Prelude.{◌≡◌, refl, ◌⊎◌, inl, inr, Bool, true, false, List, [], ◌∷◌, arith, Member}
use razor_flow.Domain.Enums.{RecoveryCaseStatus}
use razor_flow.Domain.StateMachine.Transitions.{can_transition}

-- One transition that the machine allows.
infix 40 ◌⟶◌
abbrev pub ◌⟶◌ : RecoveryCaseStatus → RecoveryCaseStatus → Type 0
s ⟶ t = can_transition s t ≡ true

-- A run, with the statuses that it passes through after its first one.
pub data Run : RecoveryCaseStatus → List RecoveryCaseStatus → RecoveryCaseStatus → Type 0 where
  here : {s : RecoveryCaseStatus} → Run s [] s
  step :
      {s t u : RecoveryCaseStatus} {via : List RecoveryCaseStatus}
      → s ⟶ t
      → Run t via u
      → Run s (t ∷ via) u

abbrev pub IsTerminal : RecoveryCaseStatus → Type 0
IsTerminal s =
    (s ≡ RecoveryCaseStatus.recovered)
    ⊎ (s ≡ RecoveryCaseStatus.unrecoverable)
    ⊎ (s ≡ RecoveryCaseStatus.expired)
    ⊎ (s ≡ RecoveryCaseStatus.stopped)

-- The statuses that no run enters from DETECTED by way of APPROVED alone.
abbrev pub is_unauthorized : RecoveryCaseStatus → Bool
is_unauthorized RecoveryCaseStatus.detected = true
is_unauthorized RecoveryCaseStatus.enriching = true
is_unauthorized RecoveryCaseStatus.diagnosing = true
is_unauthorized RecoveryCaseStatus.strategy_generated = true
is_unauthorized RecoveryCaseStatus.policy_check_pending = true
is_unauthorized RecoveryCaseStatus.rejected = true
is_unauthorized RecoveryCaseStatus.escalated = true
is_unauthorized RecoveryCaseStatus.unrecoverable = true
is_unauthorized RecoveryCaseStatus.expired = true
is_unauthorized RecoveryCaseStatus.stopped = true
is_unauthorized _ = false

-- The statuses that lie behind the verification step.
abbrev is_unverified : RecoveryCaseStatus → Bool
is_unverified RecoveryCaseStatus.verifying = false
is_unverified RecoveryCaseStatus.recovered = false
is_unverified _ = true

unauthorized_step :
    (s t : RecoveryCaseStatus)
    → s ⟶ t
    → is_unauthorized s ≡ true
    → (RecoveryCaseStatus.approved ≡ t) ⊎ (is_unauthorized t ≡ true)
unfolding can_transition
unauthorized_step s t h u = ground arith

unverified_step :
    (s t : RecoveryCaseStatus)
    → s ⟶ t
    → is_unverified s ≡ true
    → (RecoveryCaseStatus.verifying ≡ t) ⊎ (is_unverified t ≡ true)
unfolding can_transition
unverified_step s t h u = ground arith

IsTerminal-stuck : (s t : RecoveryCaseStatus) → s ⟶ t → ¬ (IsTerminal s)
unfolding can_transition
IsTerminal-stuck s t h e = ground arith

-- A run from a status before authorization to one that only authorization opens (EXECUTING,
-- WAITING_EXTERNAL, VERIFYING, RECOVERED or APPROVED itself) passes through APPROVED.
pub authorized_via :
    {s u : RecoveryCaseStatus} {via : List RecoveryCaseStatus}
    → Run s via u
    → is_unauthorized s ≡ true
    → is_unauthorized u ≡ false
    → Member RecoveryCaseStatus.approved via
authorized_via here h n = cc
authorized_via (step {s = s} {t = t} e r) h n = elim (unauthorized_step s t e h) [
  | inl p ↦ inl p
  | inr q ↦ inr (authorized_via r q n)
]

verified_via :
    {s u : RecoveryCaseStatus} {via : List RecoveryCaseStatus}
    → Run s via u
    → is_unverified s ≡ true
    → is_unverified u ≡ false
    → Member RecoveryCaseStatus.verifying via
verified_via here h n = cc
verified_via (step {s = s} {t = t} e r) h n = elim (unverified_step s t e h) [
  | inl p ↦ inl p
  | inr q ↦ inr (verified_via r q n)
]

-- A case that starts at DETECTED and is RECOVERED has been both APPROVED and VERIFYING on its way.
pub recovered_path :
    {via : List RecoveryCaseStatus}
    → Run RecoveryCaseStatus.detected via RecoveryCaseStatus.recovered
    → Member RecoveryCaseStatus.approved via × Member RecoveryCaseStatus.verifying via
recovered_path r = (authorized_via r refl refl, verified_via r refl refl)

-- No run leaves a terminal status: it is empty and ends where it began.
pub terminal_absorbs :
    {s t : RecoveryCaseStatus} {via : List RecoveryCaseStatus}
    → Run s via t
    → IsTerminal s
    → (via ≡ []) × (t ≡ s)
terminal_absorbs here h = (refl, refl)
terminal_absorbs (step {s = s} {t = t} e r) h = absurd (IsTerminal-stuck s t e h)

-- A run to a terminal status.
abbrev pub CanFinish : RecoveryCaseStatus → Type 0
CanFinish s =
    (t : RecoveryCaseStatus) × (via : List RecoveryCaseStatus) × IsTerminal t × Run s via t

stop_run : (s : RecoveryCaseStatus) → s ⟶ RecoveryCaseStatus.stopped → CanFinish s
stop_run s h =
    (RecoveryCaseStatus.stopped, RecoveryCaseStatus.stopped ∷ [], inr (inr (inr refl)), step h here)

-- From every status some sequence of allowed transitions ends in a terminal status: no status is
-- a dead end of the lifecycle.
pub case_finishes : (s : RecoveryCaseStatus) → CanFinish s
unfolding can_transition
case_finishes RecoveryCaseStatus.policy_check_pending =
    let (t, via, terminal, r) = stop_run RecoveryCaseStatus.rejected refl in
    (t, RecoveryCaseStatus.rejected ∷ via, terminal, step refl r)
case_finishes RecoveryCaseStatus.recovered = (RecoveryCaseStatus.recovered, [], inl refl, here)
case_finishes RecoveryCaseStatus.unrecoverable =
    (RecoveryCaseStatus.unrecoverable, [], inr (inl refl), here)
case_finishes RecoveryCaseStatus.expired =
    (RecoveryCaseStatus.expired, [], inr (inr (inl refl)), here)
case_finishes RecoveryCaseStatus.stopped =
    (RecoveryCaseStatus.stopped, [], inr (inr (inr refl)), here)
case_finishes s = stop_run _ refl
