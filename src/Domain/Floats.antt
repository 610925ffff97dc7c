-- ===== src/Domain/Floats.antt =====
-- What the program uses of Python's floats: an interface, since the language has no floats. The
-- laws are those of IEEE double precision; `literal n` is the float nearest to n / 100.
use razor_flow.Prelude.{ℕ, ◌≤◌, ◌^◌, ◌≡◌, Bool, true}
use razor_flow.Prelude.Int.{ℤ, pos}

pub record Floats : Type 1 where
  pub F : Type 0
  pub literal : ℕ → F
  pub of_int : ℕ → F
  pub lt : F → F → Bool
  pub le : F → F → Bool
  pub eq : F → F → Bool
  pub plus : F → F → F
  pub minus : F → F → F
  pub times : F → F → F
  -- `round(x, 4)` and `int(x)`
  pub round4 : F → F
  pub truncate : F → ℤ

module _ (fl : Floats) where
  open fl use {F, literal, of_int, lt, le, times, round4, truncate}

  abbrev pub IsUnit : F → Type 0
  IsUnit x = (le (literal 0) x ≡ true) × (le x (literal 100) ≡ true)

  -- The literals from 0.0 to 1.0 lie in [0, 1], `<` is inside `<=`, rounding to four places keeps
  -- [0, 1], and the product with an integer below 2^53, which a float holds exactly, stays below
  -- that integer.
  pub record FloatLaws : Type 0 where
    pub literal_unit : (n : ℕ) → n ≤ 100 → IsUnit (literal n)
    pub lt_le : (a b : F) → lt a b ≡ true → le a b ≡ true
    pub round4_unit : (x : F) → IsUnit x → IsUnit (round4 x)
    pub truncate_share :
        (p : F) (n : ℕ)
        → IsUnit p
        → n ≤ 2 ^ 53
        → (k : ℕ) × (truncate (times p (of_int n)) ≡ pos k) × (k ≤ n)
