-- ===== src/Persistence/Lookup.antt =====
-- Reading back a row that was written.
use razor_flow.Prelude.{
  none, ok, Member, ℕ, ◌≡◌, refl, ap, ◌∙◌, Bool, true, some, List, [], ◌∷◌, find, nat_beq,
  nat_beq_iff, Bool-cases, inl, inr,
}
use razor_flow.Persistence.Store.{update_row, scalar_one_or_none}

pub scalar_none : {A : Type 0} (rows : List A) → scalar_one_or_none rows ≡ ok none → rows ≡ []
scalar_none [] e = refl
scalar_none (x ∷ []) e = cc
scalar_none (x ∷ y ∷ rows) e = cc

pub scalar-Member :
    {A : Type 0} (rows : List A) {a : A} → scalar_one_or_none rows ≡ ok (some a) → Member a rows
scalar-Member [] e = cc
scalar-Member (x ∷ []) e = inl (cc e)
scalar-Member (x ∷ y ∷ rows) e = cc

module _ {A : Type 0} (p : A → Bool) (id_of : A → ℕ) (k : ℕ) (new : A) (kept : p new ≡ true) where
  -- The row that a query found is written, and the query finds the new row.
  pub find-update_row :
      (rows : List A) {found : A}
      → id_of found ≡ k
      → find p rows ≡ some found
      → find p (update_row id_of k new rows) ≡ some new
  find-update_row [] e look = cc
  find-update_row (row ∷ rows) {found} e look = elim (Bool-cases (nat_beq (id_of row) k)) [
    | inl same ↦ rw (same, kept) refl
    | inr other ↦ elim (Bool-cases (p row)) [
      | inl here ↦
          let first : row ≡ found = cc (rw here at look) in
          absurd (cc ((nat_beq_iff (id_of row) k).1 (ap id_of first ∙ e), other))
      | inr below ↦ rw (other, below) (find-update_row rows e (rw below at look))
    ]
  ]
