-- ===== src/Prelude/Lists.antt =====
-- Lists: length and membership over the native numbers, and predicates by recursion.
use Prim.Native.Nat.{ℕ, zero, suc, ◌+◌}
use mathlib.Core.Path.{◌≡◌, sym, ap, subst}
use mathlib.Core.Logic.{◌⊎◌, ◌↔◌, inl, inr}
use mathlib.Core.Bool.{Bool, true, false, ◌||◌}
use mathlib.Core.Option.{Option, none, some}
use mathlib.Core.List.{List, [], ◌∷◌, ◌++◌}
use native.Mathlib.Omega.{arith}
use razor_flow.Prelude.Tests.{Eq, ◌==◌, Bool-cases, if◌then◌else◌}

module _ {ℓ} {A : Type ℓ} where
  abbrev pub length : List A → ℕ
  length [] = 0
  length (x ∷ xs) = suc (length xs)

  pub length-append : (xs ys : List A) → length (xs ++ ys) ≡ length xs + length ys
  length-append [] ys = omega arith
  length-append (x ∷ xs) ys = omega (arith, length-append xs ys)

  abbrev pub replicate : ℕ → A → List A
  replicate zero a = []
  replicate (suc n) a = a ∷ replicate n a

  abbrev pub take : ℕ → List A → List A
  take zero xs = []
  take (suc n) [] = []
  take (suc n) (x ∷ xs) = x ∷ take n xs

  abbrev pub drop : ℕ → List A → List A
  drop zero xs = xs
  drop (suc n) [] = []
  drop (suc n) (x ∷ xs) = drop n xs

  -- The rows that a `WHERE` clause keeps, in order.
  abbrev pub select : (A → Bool) → List A → List A
  select p [] = []
  select p (x ∷ xs) = if p x then x ∷ select p xs else select p xs

  -- The first row that a test keeps (`next(..., None)`, `scalar_one_or_none`).
  abbrev pub find : (A → Bool) → List A → Option A
  find p [] = none
  find p (x ∷ xs) = if p x then some x else find p xs

-- Membership as a sum, which the tactics take apart.
abbrev pub Member : {A : Type 0} → A → List A → Type 0
Member a [] = ⊥
Member a (x ∷ xs) = (a ≡ x) ⊎ Member a xs

-- A predicate on every element.
abbrev pub All {ℓ κ} : {A : Type ℓ} → (A → Type κ) → List A → Type κ
All P [] = Unit
All P (x ∷ xs) = P x × All P xs

-- `x in xs`
module _ {ℓ} {A : Type ℓ} ⦃e : Eq A⦄ where
  abbrev pub contains : A → List A → Bool
  contains a [] = false
  contains a (x ∷ xs) = (a == x) || contains a xs

pub mem-select :
    {A : Type 0} (p : A → Bool) (a : A) (xs : List A)
    → Member a (select p xs) ↔ (Member a xs × (p a ≡ true))
mem-select p a [] = (λ h. absurd h, λ h. h.0)
mem-select p a (x ∷ xs) = elim (Bool-cases (p x)) [
  | inl e ↦ (
    λ h. elim (rw e at h) [
      | inl same ↦ (inl same, rw same e)
      | inr below ↦ let (m, q) = (mem-select p a xs).0 below in (inr m, q)
    ],
    λ h.
        rw e
          (elim h.0 [ inl same ↦ inl same | inr below ↦ inr ((mem-select p a xs).1 (below, h.1)) ]),
  )
  | inr e ↦ (
    λ h. let (m, q) = (mem-select p a xs).0 (rw e at h) in (inr m, q),
    λ h.
        rw e
          (elim h.0 [ inl same ↦ cc (ap p same) | inr below ↦ (mem-select p a xs).1 (below, h.1) ]),
  )
]

-- A predicate on every element holds of each.
pub all_of_mem : {A : Type 0} (P : A → Type 0) (a : A) (xs : List A) → All P xs → Member a xs → P a
all_of_mem P a [] h m = absurd m
all_of_mem P a (x ∷ xs) h m = elim m [
  | inl e ↦ subst P (sym e) h.0
  | inr below ↦ all_of_mem P a xs h.1 below
]
