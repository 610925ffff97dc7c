-- ===== src/Domain/StateMachine/AttemptRank.antt =====
-- The attempt state machine only moves forward.
use razor_flow.Prelude.{
  ◌⊎◌, inl, inr, ℕ, ◌+◌, ◌≤◌, ◌<◌, ◌≡◌, ◌≢◌, refl, ap, true, List, [], ◌∷◌, arith, length,
}
use razor_flow.Domain.Enums.{RecoveryAttemptStatus}
use razor_flow.Domain.StateMachine.Transitions.{attempt_can_transition}

-- A run of the attempt machine, with the statuses after its first one.
pub data AttemptRun
    : RecoveryAttemptStatus → List RecoveryAttemptStatus → RecoveryAttemptStatus → Type 0 where
  here : {s : RecoveryAttemptStatus} → AttemptRun s [] s
  step :
      {s t u : RecoveryAttemptStatus} {via : List RecoveryAttemptStatus}
      → attempt_can_transition s t ≡ true
      → AttemptRun t via u
      → AttemptRun s (t ∷ via) u

abbrev steps_left : RecoveryAttemptStatus → ℕ
steps_left RecoveryAttemptStatus.draft = 3
steps_left RecoveryAttemptStatus.dispatched = 2
steps_left RecoveryAttemptStatus.acknowledged = 1
steps_left _ = 0

steps_left_falls :
    (s t : RecoveryAttemptStatus) → attempt_can_transition s t ≡ true → steps_left t < steps_left s
unfolding attempt_can_transition
steps_left_falls s t h = ground arith

run_bounded :
    {s t : RecoveryAttemptStatus} {via : List RecoveryAttemptStatus}
    → AttemptRun s via t
    → length via + steps_left t ≤ steps_left s
run_bounded here = omega arith
run_bounded (step {s = s} {t = t} e r) = omega (arith, steps_left_falls s t e, run_bounded r)

rank_cap : (s : RecoveryAttemptStatus) → steps_left s ≤ 3
rank_cap s = ground arith

empty_of_length : {via : List RecoveryAttemptStatus} {k : ℕ} → length via + k ≤ k → via ≡ []
empty_of_length {via = []} h = refl
empty_of_length {via = x ∷ via} h = absurd (omega arith)

empty_or : {P : Type 0} (via : List RecoveryAttemptStatus) → (via ≢ [] → P) → (via ≡ []) ⊎ P
empty_or [] h = inl refl
empty_or (x ∷ via) h = inr (h (λ e. cc))

-- From any status an attempt changes its status at most three times, and after a change it never
-- comes back to the status that it left.
pub AttemptRun-short :
    {s t : RecoveryAttemptStatus} {via : List RecoveryAttemptStatus}
    → AttemptRun s via t
    → (length via ≤ 3) × ((via ≡ []) ⊎ (s ≢ t))
AttemptRun-short {s} {t} {via} r = (
  omega (arith, run_bounded r, rank_cap s),
  empty_or via (λ nonempty e.
      nonempty (empty_of_length {k = steps_left t} (rw (ap steps_left e) at (run_bounded r)))),
)
