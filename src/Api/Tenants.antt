-- ===== src/Api/Tenants.antt =====
-- A merchant reaches only its own cases.
use razor_flow.Prelude.{
  ℕ, ◌≡◌, ◌∙◌, subst, true, Option, none, some, Text, Member, find, ok, bind-ok, ok_injective,
  arith, Option-cases, inl, inr, case_not_found,
}
use razor_flow.Persistence.{Db, MerchantModel, RecoveryCaseModel}
use razor_flow.Webhooks.{or_raise}
use razor_flow.Webhooks.Dedup.{found_merchant, find-Member, or_raise-ok}
use razor_flow.Api.Cases.{
  resolve_merchant_by_slug, has_reference_id, is_case_of, case_by_link, case_by_id, case_or_link,
  resolve_case_by_id_or_link, resolve,
}

module _ {F : Type 0} (parse_uuid : Text → Option ℕ) (db : Db F) where
  abbrev pub IsOwn : ℕ → RecoveryCaseModel F → Type 0
  IsOwn merchant_id case = Member case db.cases × (case.merchant_id ≡ merchant_id)

  own_parts :
      (merchant_id case_id : ℕ) (row : RecoveryCaseModel F)
      → is_case_of merchant_id case_id row ≡ true
      → row.merchant_id ≡ merchant_id
  own_parts merchant_id case_id row h = ground arith

  found-IsOwn :
      (merchant_id case_id : ℕ) {case : RecoveryCaseModel F}
      → find (is_case_of merchant_id case_id) db.cases ≡ some case
      → IsOwn merchant_id case
  found-IsOwn merchant_id case_id {case} look =
      let (m, t) = find-Member (is_case_of merchant_id case_id) db.cases look in
      (m, own_parts merchant_id case_id case t)

  link-IsOwn :
      (merchant_id : ℕ) (identifier : Text) {case : RecoveryCaseModel F}
      → case_by_link merchant_id identifier db ≡ some case
      → IsOwn merchant_id case
  link-IsOwn merchant_id identifier look =
      elim (Option-cases (find (has_reference_id merchant_id identifier) db.attempts)) [
        | inl missing ↦ absurd (cc (rw (missing, case_by_link) at look))
        | inr (attempt, e) ↦ found-IsOwn merchant_id attempt.case_id (rw (e, case_by_link) at look)
      ]

  case-IsOwn :
      (merchant_id : ℕ) (identifier : Text) (id : Option ℕ) {case : RecoveryCaseModel F}
      → case_or_link merchant_id identifier (case_by_id merchant_id id db) db ≡ some case
      → IsOwn merchant_id case
  case-IsOwn merchant_id identifier none look = link-IsOwn merchant_id identifier look
  case-IsOwn merchant_id identifier (some id) look =
      elim (Option-cases (find (is_case_of merchant_id id) db.cases)) [
        | inl missing ↦ link-IsOwn merchant_id identifier (rw missing at look)
        | inr (found, e) ↦ found-IsOwn merchant_id id (e ∙ rw e at look)
      ]

  -- Whatever identifier is given, an id or the reference of a payment link, an endpoint of a case
  -- that goes on works for an active merchant with the slug of the request, and on a stored case of
  -- that merchant: no merchant reaches the case of another one.
  pub resolve-IsOwn :
      (identifier slug : Text) {r : MerchantModel × RecoveryCaseModel F}
      → resolve parse_uuid identifier slug db ≡ ok r
      → Member r.0 db.merchants × (r.0.slug ≡ slug) × (r.0.is_active ≡ true) × IsOwn r.0.id r.1
  unfolding resolve resolve_merchant_by_slug resolve_case_by_id_or_link
  resolve-IsOwn identifier slug h =
      let (merchant, e, h₁) = bind-ok (resolve_merchant_by_slug db.merchants slug) _ h in
      let (case, e₁, h₂) =
        bind-ok
          (or_raise (resolve_case_by_id_or_link parse_uuid merchant.id identifier db)
            case_not_found)
          _ h₁ in
      let (m, named, active) = found_merchant db.merchants slug (or_raise-ok _ _ e) in
      subst
        (λ x.
          Member x.0 db.merchants × (x.0.slug ≡ slug) × (x.0.is_active ≡ true) × IsOwn x.0.id x.1)
        (ok_injective h₂)
        (
          m,
          named,
          active,
          case-IsOwn merchant.id identifier (parse_uuid identifier) (or_raise-ok _ _ e₁),
        )
