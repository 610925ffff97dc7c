-- ===== src/Domain/MerchantPolicy.antt =====
-- The policy of a merchant as it is stored in `config_json` (policies.py), and its snapshot.
use razor_flow.Prelude.{
  ℕ, ◌≡◌, refl, ap, Bool, true, Option, none, some, List, [], ◌∷◌, map, if◌then◌else◌, ◌==◌, Text,
  codes, text_eq,
}
use razor_flow.Domain.Enums.{RecoveryActionType}
use razor_flow.Domain.Entities.{MerchantPolicySnapshot}

-- `RecoveryActionType.value`
abbrev pub action_value : RecoveryActionType → Text
action_value RecoveryActionType.payment_link = codes "PAYMENT_LINK"
action_value RecoveryActionType.customer_reminder = codes "CUSTOMER_REMINDER"
action_value RecoveryActionType.wait_and_reassess = codes "WAIT_AND_REASSESS"
action_value RecoveryActionType.human_escalation = codes "HUMAN_ESCALATION"
action_value RecoveryActionType.do_nothing = codes "DO_NOTHING"

-- `RecoveryActionType._value2member_map_`
abbrev action_of_value : Text → Option RecoveryActionType
action_of_value t =
    if t == codes "PAYMENT_LINK"
    then some RecoveryActionType.payment_link
    else if t == codes "CUSTOMER_REMINDER"
    then some RecoveryActionType.customer_reminder
    else if t == codes "WAIT_AND_REASSESS"
    then some RecoveryActionType.wait_and_reassess
    else if t == codes "HUMAN_ESCALATION"
    then some RecoveryActionType.human_escalation
    else if t == codes "DO_NOTHING"
    then some RecoveryActionType.do_nothing
    else none

abbrev or_skip : Option RecoveryActionType → List RecoveryActionType → List RecoveryActionType
or_skip none actions = actions
or_skip (some a) actions = a ∷ actions

-- The members of the values that have one.
unfoldable pub actions_of : List Text → List RecoveryActionType
actions_of [] = []
actions_of (t ∷ ts) = or_skip (action_of_value t) (actions_of ts)

-- The entry "policy": each key may be missing.
pub record RawPolicy : Type 0 where
  pub max_allowed_attempts : Option ℕ
  pub recovery_window_hours : Option ℕ
  pub cooldown_period_minutes : Option ℕ
  pub high_value_escalation_threshold_cents : Option ℕ
  pub disallowed_actions : Option (List Text)
  pub require_human_escalation_for_high_risk : Option Bool
  pub auto_retry_transient_failures : Option Bool

-- An entry of "policy_history".
pub record ArchivedPolicy : Type 0 where
  pub version : ℕ
  pub max_allowed_attempts : ℕ
  pub recovery_window_hours : ℕ
  pub cooldown_period_minutes : ℕ
  pub high_value_escalation_threshold_cents : ℕ
  pub disallowed_actions : List Text

-- `config_json`
pub record PolicyConfig : Type 0 where
  pub policy : Option RawPolicy
  pub policy_version : Option ℕ
  pub policy_history : Option (List ArchivedPolicy)

-- `get(key, default)`
abbrev pub or_default {ℓ} : {A : Type ℓ} → Option A → A → A
or_default none default = default
or_default (some a) default = a

abbrev pub no_policy : RawPolicy
no_policy = record {
  max_allowed_attempts = none;
  recovery_window_hours = none;
  cooldown_period_minutes = none;
  high_value_escalation_threshold_cents = none;
  disallowed_actions = none;
  require_human_escalation_for_high_risk = none;
  auto_retry_transient_failures = none;
}

unfoldable pub snapshot_of : PolicyConfig → MerchantPolicySnapshot
snapshot_of config =
    let raw_policy = or_default config.policy no_policy in
    record {
      policy_version = or_default config.policy_version 1;
      max_allowed_attempts = or_default raw_policy.max_allowed_attempts 2;
      recovery_window_hours = or_default raw_policy.recovery_window_hours 72;
      cooldown_period_minutes = or_default raw_policy.cooldown_period_minutes 30;
      high_value_escalation_threshold_cents =
          or_default raw_policy.high_value_escalation_threshold_cents 5000000;
      disallowed_actions = actions_of (or_default raw_policy.disallowed_actions []);
      require_human_escalation_for_high_risk =
          or_default raw_policy.require_human_escalation_for_high_risk true;
      auto_retry_transient_failures = or_default raw_policy.auto_retry_transient_failures true;
    }

-- The values of actions read back as the actions.
pub actions_of-values :
    (actions : List RecoveryActionType) → actions_of (map action_value actions) ≡ actions
unfolding actions_of
actions_of-values [] = refl
actions_of-values (RecoveryActionType.payment_link ∷ actions) =
    ap (λ rest. RecoveryActionType.payment_link ∷ rest) (actions_of-values actions)
actions_of-values (RecoveryActionType.customer_reminder ∷ actions) =
    ap (λ rest. RecoveryActionType.customer_reminder ∷ rest) (actions_of-values actions)
actions_of-values (RecoveryActionType.wait_and_reassess ∷ actions) =
    ap (λ rest. RecoveryActionType.wait_and_reassess ∷ rest) (actions_of-values actions)
actions_of-values (RecoveryActionType.human_escalation ∷ actions) =
    ap (λ rest. RecoveryActionType.human_escalation ∷ rest) (actions_of-values actions)
actions_of-values (RecoveryActionType.do_nothing ∷ actions) =
    ap (λ rest. RecoveryActionType.do_nothing ∷ rest) (actions_of-values actions)
