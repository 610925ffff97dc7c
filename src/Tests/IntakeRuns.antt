-- ===== src/Tests/IntakeRuns.antt =====
-- Failures of one order, and a reassessment.
use razor_flow.Prelude.{
  ℕ, ◌≡◌, refl, inl, none, some, [], ◌∷◌, raised, Member, invalid_state_transition,
}
use razor_flow.Domain.Enums.{RecoveryCaseStatus}
use razor_flow.Domain.Entities.{default_policy}
use razor_flow.Decision.{decide, deterministic}
use razor_flow.Persistence.{RecoveryCaseModel}
use razor_flow.Worker.{reassess_cases}
use razor_flow.Worker.Stuck.{reassessed_undecidable}
use razor_flow.Tests.Fixtures.{context, fixed_point, fixed_point_laws, stored_case, later, soon}
use razor_flow.Tests.ScoringRuns.{untrained}

abbrev waiting_case : RecoveryCaseModel ℕ
waiting_case = record stored_case {
  status = RecoveryCaseStatus.waiting_external;
  next_action_scheduled_at = some 1500000000;
}

reassessed_undecidable_example :
    Member
      (record waiting_case {
        status = RecoveryCaseStatus.detected;
        next_action_scheduled_at = none;
      })
      (reassess_cases soon (waiting_case ∷ [])).0
    × (decide fixed_point untrained deterministic
          (record waiting_case {
            status = RecoveryCaseStatus.detected;
            next_action_scheduled_at = none;
          })
          context
          default_policy
          later
        ≡ raised invalid_state_transition)
reassessed_undecidable_example =
    reassessed_undecidable fixed_point fixed_point_laws untrained deterministic waiting_case context
      default_policy soon later (waiting_case ∷ []) (inl refl) refl
      (refl, (250000, refl), (0, refl), tt, tt)
