-- ===== src/Domain/Scoring/Ranking.antt =====
-- The ranking loses nothing, adds nothing, and begins with the highest net value.
use mathlib.Core.List.{Perm}
use mathlib.Core.List.Perm
use razor_flow.Prelude.{◌≡◌, true, false, List, [], ◌∷◌, arith, All, Bool-cases, inl, inr}
use razor_flow.Prelude.Int.{ℤ, ◌≤ℤ◌}
use razor_flow.Domain.Floats.{Floats}
use razor_flow.Domain.Scoring.Erv.{ErvResult}
use razor_flow.Domain.Scoring.Ranker.{key_lt, insert_ranked, rank_candidates}

module _ (fl : Floats) where
  open fl use {F}

  abbrev net : ErvResult F → ℤ
  net r = r.expected_net_recovery_value_cents

  -- No later entry has a higher net value than an earlier one.
  abbrev pub IsRanked : List (ErvResult F) → Type 0
  IsRanked [] = Unit
  IsRanked (x ∷ xs) =
      All (λ y. y.expected_net_recovery_value_cents ≤ℤ x.expected_net_recovery_value_cents) xs
      × IsRanked xs

  key_lt-net : (x y : ErvResult F) → key_lt fl x y ≡ true → net y ≤ℤ net x
  unfolding key_lt
  key_lt-net x y h = ground arith

  not_key_lt-net : (x y : ErvResult F) → key_lt fl x y ≡ false → net x ≤ℤ net y
  unfolding key_lt
  not_key_lt-net x y h = ground arith

  pub All-insert :
      (P : ErvResult F → Type 0) (x : ErvResult F) (ys : List (ErvResult F))
      → P x
      → All P ys
      → All P (insert_ranked fl x ys)
  unfolding insert_ranked
  All-insert P x [] h k = (h, tt)
  All-insert P x (y ∷ ys) h (k, ks) = elim (Bool-cases (key_lt fl y x)) [
    | inl e ↦ rw e (k, All-insert P x ys h ks)
    | inr e ↦ rw e (h, (k, ks))
  ]

  All-below :
      (x y : ErvResult F) (ys : List (ErvResult F))
      → net y ≤ℤ net x
      → All (λ z. net z ≤ℤ net y) ys
      → All (λ z. net z ≤ℤ net x) ys
  All-below x y [] h k = tt
  All-below x y (z ∷ ys) h (k, ks) = (omega arith, All-below x y ys h ks)

  insert-IsRanked :
      (x : ErvResult F) (ys : List (ErvResult F)) → IsRanked ys → IsRanked (insert_ranked fl x ys)
  unfolding insert_ranked
  insert-IsRanked x [] h = (tt, tt)
  insert-IsRanked x (y ∷ ys) (h, hs) = elim (Bool-cases (key_lt fl y x)) [
    | inl e ↦ rw e (All-insert _ x ys (key_lt-net y x e) h, insert-IsRanked x ys hs)
    | inr e ↦ let low = not_key_lt-net y x e in rw e ((low, All-below x y ys low h), (h, hs))
  ]

  insert-perm : (x : ErvResult F) (ys : List (ErvResult F)) → Perm (insert_ranked fl x ys) (x ∷ ys)
  unfolding insert_ranked
  insert-perm x [] = Perm.refl _
  insert-perm x (y ∷ ys) = elim (Bool-cases (key_lt fl y x)) [
    | inl e ↦ rw e (Perm.trans (Perm.cons y (insert-perm x ys)) (Perm.swap x y ys))
    | inr e ↦ rw e (Perm.refl _)
  ]

  rank-perm : (xs : List (ErvResult F)) → Perm (rank_candidates fl xs) xs
  unfolding rank_candidates
  rank-perm [] = Perm.refl _
  rank-perm (x ∷ xs) = Perm.trans (insert-perm x _) (Perm.cons x (rank-perm xs))

  rank-IsRanked : (xs : List (ErvResult F)) → IsRanked (rank_candidates fl xs)
  unfolding rank_candidates
  rank-IsRanked [] = tt
  rank-IsRanked (x ∷ xs) = insert-IsRanked x _ (rank-IsRanked xs)

  -- Ranking permutes the candidates, and no later entry has a higher net value than an earlier one.
  pub rank_candidates-sorts :
      (xs : List (ErvResult F)) → Perm (rank_candidates fl xs) xs × IsRanked (rank_candidates fl xs)
  rank_candidates-sorts xs = (rank-perm xs, rank-IsRanked xs)
