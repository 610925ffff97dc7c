-- ===== src/Tests/ScoringRuns.antt =====
-- The scorer, the calculator and the ranking over the fixed-point floats.
use mathlib.Core.List.{Perm}
use razor_flow.Prelude.{ℕ, ◌≡◌, refl, none, List, [], ◌∷◌, ok}
use razor_flow.Domain.Enums.{RecoveryActionType}
use razor_flow.Domain.Entities.{default_policy}
use razor_flow.Domain.Scoring.{
  score, calculate_erv, ErvResult, Model, baseline_score, score_with, from_float, clamp, raw_score,
}
use razor_flow.Domain.Scoring.Bounds.{IsScore, score-IsScore}
use razor_flow.Domain.Scoring.Ranker.{rank_candidates}
use razor_flow.Domain.Scoring.Ranking.{IsRanked, rank_candidates-sorts}
use razor_flow.Tests.Fixtures.{snapshot, context, fixed_point, fixed_point_laws}

abbrev pub untrained : Model fixed_point
untrained = none

-- 0.65 * 0.75, with one attempt made.
baseline_run :
    score fixed_point untrained snapshot context RecoveryActionType.payment_link ≡ ok 4875
unfolding score score_with baseline_score from_float clamp raw_score
baseline_run = refl

score-IsScore_example :
    IsScore fixed_point fixed_point_laws
      (score fixed_point untrained snapshot context RecoveryActionType.payment_link)
score-IsScore_example =
    score-IsScore fixed_point fixed_point_laws untrained snapshot context
      RecoveryActionType.payment_link

abbrev erv : RecoveryActionType → ErvResult ℕ
erv action = calculate_erv fixed_point action snapshot context 4875 default_policy

abbrev entries : List (ErvResult ℕ)
entries = erv RecoveryActionType.do_nothing ∷ erv RecoveryActionType.payment_link ∷ []

rank_candidates-sorts_example :
    Perm (rank_candidates fixed_point entries) entries
    × IsRanked fixed_point (rank_candidates fixed_point entries)
rank_candidates-sorts_example = rank_candidates-sorts fixed_point entries
