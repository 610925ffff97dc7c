-- ===== src/Webhooks/Dedup.antt =====
-- A webhook is stored when it is authentic, and once.
use razor_flow.Prelude.{
  authentication_failed, ◌≡◌, ◌≢◌, refl, sym, ap, ◌∙◌, subst, Bool, true, false, Option, none, some,
  List, [], ◌∷◌, arith, Text, codes, Bool-cases, inl, inr, find, Member, ok, Error, bind-ok,
  then-ok, ok_injective, text_beq_iff, ◌==◌, text_eq, raise_unless, ◌&&◌, ◌||◌,
}
use razor_flow.Prelude.Python.{strip}
use razor_flow.Persistence.{Db, MerchantModel, MerchantProviderConfigModel, RawWebhookEventModel}
use razor_flow.Webhooks.Payload.{
  Platform, Headers, verify_razorpay_signature, is_empty, is_ascii, compare_digest,
}
use razor_flow.Webhooks.Ingest.{
  active_config, or_raise, resolve_merchant_and_config, ingest_razorpay_webhook,
}

pub or_raise-ok : {A : Type 0} (o : Option A) (e : Error) {a : A} → or_raise o e ≡ ok a → o ≡ some a
or_raise-ok none e h = cc
or_raise-ok (some b) e h = cc

raise_unless-ok : (b : Bool) (e : Error) → raise_unless b e ≡ ok tt → b ≡ true
raise_unless-ok false e h = cc
raise_unless-ok true e h = refl

-- A row that was found is in the table and passes the test.
pub find-Member :
    {A : Type 0} (p : A → Bool) (rows : List A) {a : A}
    → find p rows ≡ some a
    → Member a rows × (p a ≡ true)
find-Member p [] h = cc
find-Member p (x ∷ rows) {a} h = elim (Bool-cases (p x)) [
  | inl e ↦ let same : x ≡ a = cc (rw e at h) in (inl (sym same), ap p (sym same) ∙ e)
  | inr e ↦ let (m, q) = find-Member p rows (rw e at h) in (inr m, q)
]

-- An active merchant of a slug, and its active configuration of the gateway.
abbrev pub Resolves :
    List MerchantModel → Text → MerchantModel → MerchantProviderConfigModel → Type 0
Resolves merchants slug merchant config =
    Member merchant merchants
    × (merchant.slug ≡ slug)
    × (merchant.is_active ≡ true)
    × Member config merchant.provider_configs
    × (config.provider ≡ codes "RAZORPAY")
    × (config.is_active ≡ true)

and_true : (a b : Bool) → (a && b) ≡ true → (a ≡ true) × (b ≡ true)
and_true a b h = ground arith

middle_false : (a b c : Bool) → (a || b || c) ≡ false → b ≡ false
middle_false a b c h = ground arith

not_true : true ≢ false
not_true h = ground arith

pub found_merchant :
    (merchants : List MerchantModel) (slug : Text) {merchant : MerchantModel}
    → find (λ row. (row.slug == slug) && row.is_active) merchants ≡ some merchant
    → Member merchant merchants × (merchant.slug ≡ slug) × (merchant.is_active ≡ true)
found_merchant merchants slug {merchant} h =
    let (m, t) = find-Member (λ row. (row.slug == slug) && row.is_active) merchants h in
    let (named, active) = and_true (merchant.slug == slug) merchant.is_active t in
    (m, (text_beq_iff merchant.slug slug).0 named, active)

found_config :
    (merchant : MerchantModel) (provider : Text) {config : MerchantProviderConfigModel}
    → active_config provider merchant ≡ some config
    → Member config merchant.provider_configs
      × (config.provider ≡ provider)
      × (config.is_active ≡ true)
found_config merchant provider {config} h =
    let (m, t) =
      find-Member (λ c. (c.provider == provider) && c.is_active) merchant.provider_configs h in
    let (named, active) = and_true (config.provider == provider) config.is_active t in
    (m, (text_beq_iff config.provider provider).0 named, active)

resolve-Resolves :
    (merchants : List MerchantModel) (slug : Text) {r : MerchantModel × MerchantProviderConfigModel}
    → resolve_merchant_and_config merchants slug (codes "RAZORPAY") ≡ ok r
    → Resolves merchants slug r.0 r.1
unfolding resolve_merchant_and_config
resolve-Resolves merchants slug {r} h =
    let (merchant, e, h₁) = bind-ok _ _ h in
    let (config, e₁, h₂) = bind-ok _ _ h₁ in
    let (m, named, active) = found_merchant merchants slug (or_raise-ok _ _ e) in
    let (m₁, provider, on) = found_config merchant (codes "RAZORPAY") (or_raise-ok _ _ e₁) in
    subst (λ x. Resolves merchants slug x.0 x.1) (ok_injective h₂)
      (m, named, active, m₁, provider, on)

compared : (a b : Text) → compare_digest a b ≡ ok true → a ≡ b
compared a b h = elim (Bool-cases (is_ascii a && is_ascii b)) [
  | inl plain ↦ (text_beq_iff a b).0 (ok_injective (rw plain at h))
  | inr other ↦ absurd (cc (rw other at h))
]

module _ (py : Platform) {F : Type 0} (concurrent : List RawWebhookEventModel)
    (slug raw_body signature : Text) (headers : Headers) (db : Db F) where
  -- The secret of a configuration signs the body.
  abbrev pub IsSigned : MerchantProviderConfigModel → Type 0
  IsSigned config =
      (config.webhook_secret_enc ≢ [])
      × (py.hmac_sha256 raw_body config.webhook_secret_enc ≡ strip signature)

  signed :
      (config : MerchantProviderConfigModel)
      → verify_razorpay_signature py raw_body signature config.webhook_secret_enc ≡ ok true
      → IsSigned config
  unfolding verify_razorpay_signature
  signed config h =
      elim (Bool-cases
        (is_empty signature || is_empty config.webhook_secret_enc || is_empty raw_body)) [
          | inl e ↦ absurd (cc (rw e at h))
          | inr e ↦ (
            λ none_set. absurd (not_true (sym (ap is_empty none_set) ∙ middle_false _ _ _ e)),
            compared (py.hmac_sha256 raw_body config.webhook_secret_enc) (strip signature)
                (rw e at h),
          )
        ]

  -- A webhook that is stored, or taken for a duplicate, names an active merchant with an active
  -- configuration of the gateway, and its signature is the HMAC of the exact body under the secret
  -- of that configuration, which is not empty.
  pub ingest-Signed :
      {r : (Bool × Option RawWebhookEventModel) × Db F}
      → ingest_razorpay_webhook py concurrent slug raw_body signature headers db ≡ ok r
      → (merchant : MerchantModel) × (config : MerchantProviderConfigModel) × Resolves db.merchants
          slug merchant config
        × IsSigned config
  unfolding ingest_razorpay_webhook
  ingest-Signed h =
      let (merchant, e, h₁) = bind-ok _ _ h in
      let (resolved, e₁, h₂) = bind-ok _ _ e in
      let (accepted, checked, h₃) =
        bind-ok (verify_razorpay_signature py raw_body signature resolved.1.webhook_secret_enc) _
          h₂ in
      let (valid, same) = then-ok (raise_unless accepted authentication_failed) _ h₃ in
      (
        resolved.0,
        resolved.1,
        resolve-Resolves db.merchants slug e₁,
        signed resolved.1 (checked ∙ ap ok (raise_unless-ok accepted _ valid)),
      )
