-- ===== src/Persistence/Ids.antt =====
-- Rows whose ids fall, newest first, and writes to one of them.
use razor_flow.Prelude.{
  ℕ, ◌≤◌, ◌<◌, ◌≡◌, ◌≢◌, sym, ap, ◌∙◌, List, [], ◌∷◌, arith, Bool-cases, inl, inr, Member, nat_beq,
  nat_beq_iff,
}
use razor_flow.Persistence.Store.{update_row}

module _ {A : Type 0} (id_of : A → ℕ) where
  -- The ids of the rows fall, newest first, below a bound: no two rows have the same id.
  abbrev pub Descending : ℕ → List A → Type 0
  Descending bound [] = Unit
  Descending bound (row ∷ rows) = (id_of row < bound) × Descending (id_of row) rows

  pub Descending-le : (m n : ℕ) (rows : List A) → m ≤ n → Descending m rows → Descending n rows
  Descending-le m n [] h d = tt
  Descending-le m n (row ∷ rows) h d = (omega (arith, d.0), d.1)

  below :
      (bound : ℕ) (rows : List A) (o : A) → Descending bound rows → Member o rows → id_of o < bound
  below bound [] o d m = absurd m
  below bound (row ∷ rows) o d m = elim m [
    | inl e ↦ rw e d.0
    | inr m' ↦ let lower = below (id_of row) rows o d.1 m' in omega (arith, d.0, lower)
  ]

  -- Two rows with one id are one row.
  pub same_id :
      (bound : ℕ) (rows : List A) (a b : A)
      → Descending bound rows
      → Member a rows
      → Member b rows
      → id_of a ≡ id_of b
      → a ≡ b
  same_id bound [] a b d m m' e = absurd m
  same_id bound (row ∷ rows) a b d m m' e = elim m [
    | inl first ↦ elim m' [
      | inl also ↦ first ∙ sym also
      | inr later ↦
          let lower = below (id_of row) rows b d.1 later in
          let head : id_of a ≡ id_of row = ap id_of first in absurd (omega arith)
    ]
    | inr later ↦ elim m' [
      | inl also ↦
          let lower = below (id_of row) rows a d.1 later in
          let head : id_of b ≡ id_of row = ap id_of also in absurd (omega arith)
      | inr later' ↦ same_id (id_of row) rows a b d.1 later later' e
    ]
  ]

  -- A write to one row keeps the rows with other ids, and the order of the ids.
  pub update-Member :
      (k : ℕ) (new o : A) (rows : List A)
      → id_of o ≢ k
      → Member o rows
      → Member o (update_row (λ row. id_of row) k new rows)
  update-Member k new o [] apart m = m
  update-Member k new o (row ∷ rows) apart m = elim m [
    | inl e ↦ elim (Bool-cases (nat_beq (id_of row) k)) [
      | inl same ↦ absurd (apart (ap id_of e ∙ (nat_beq_iff (id_of row) k).0 same))
      | inr other ↦ inl (rw other e)
    ]
    | inr later ↦ inr (update-Member k new o rows apart later)
  ]

  pub update-Descending :
      (bound k : ℕ) (new : A) (rows : List A)
      → id_of new ≡ k
      → Descending bound rows
      → Descending bound (update_row (λ row. id_of row) k new rows)
  update-Descending bound k new [] e d = tt
  update-Descending bound k new (row ∷ rows) e d = elim (Bool-cases (nat_beq (id_of row) k)) [
    | inl same ↦
        let here : id_of row ≡ k = (nat_beq_iff (id_of row) k).0 same in
        rw same (
          omega (arith, d.0),
          update-Descending (id_of new) k new rows e
              (Descending-le (id_of row) (id_of new) rows (omega arith) d.1),
        )
    | inr other ↦ rw other (d.0, update-Descending (id_of row) k new rows e d.1)
  ]
