-- ===== src/Persistence/Frame.antt =====
-- What a call leaves alone.
use razor_flow.Prelude.{◌≤◌, ◌≡◌, refl, ◌∙◌, arith}
use razor_flow.Persistence.Store.{Db}

module _ {F : Type 0} where
  -- The events and the orders are as they were, and ids are only handed out.
  abbrev pub Frame : Db F → Db F → Type 0
  Frame db after =
      (after.raw_events ≡ db.raw_events) × (after.orders ≡ db.orders) × (db.next_id ≤ after.next_id)

  pub Frame-refl : (db : Db F) → Frame db db
  Frame-refl db = (refl, refl, omega arith)

  pub Frame-trans : (a b c : Db F) → Frame a b → Frame b c → Frame a c
  Frame-trans a b c (e, o, n) (e', o', n') = (e' ∙ e, o' ∙ o, omega arith)

  -- The cases too.
  abbrev pub Quiet : Db F → Db F → Type 0
  Quiet db after = Frame db after × (after.cases ≡ db.cases)

  pub Quiet-refl : (db : Db F) → Quiet db db
  Quiet-refl db = (Frame-refl db, refl)
