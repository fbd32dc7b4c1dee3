-- ===== src/Subscriptions/Activation.antt =====
-- app/subscriptions/service.py: the operations that change entitlements.
use crous_apartment_monitori.Common.{
  ℕ, suc, Bool, true, false, not, ◌&&◌, Option, none, some, List, [], ◌∷◌, ◌++◌, map, filter, find,
  first_by, is_some, ltb, leb, ◌==◌, String, if◌then◌else◌, Result, ok, err, ◌>>=◌,
}
use crous_apartment_monitori.Models.Accounts.{User}
use crous_apartment_monitori.Models.Billing.{
  PlanCode, EntitlementStatus, ActivationSource, SubscriptionPlan, UserSubscription,
}
use crous_apartment_monitori.Settings.{Settings}
use crous_apartment_monitori.Subscriptions.Plans.{Tables, code_eq}
use crous_apartment_monitori.Subscriptions.Season.{ServiceError, value_error, entitlement_dates}
use crous_apartment_monitori.Subscriptions.Entitlements.{
  is_active, is_live, is_trial_source, get_effective_subscription,
}

unfoldable pub set_status : EntitlementStatus → UserSubscription → UserSubscription
set_status status e = record e { status = status }

-- The loop over the current entitlements.
unfoldable pub supersede : ℕ → ℕ → List UserSubscription → List UserSubscription
unfolding set_status
supersede user_id now =
    map (λ e. if is_live user_id now e then set_status EntitlementStatus.superseded e else e)

unfoldable pub new_entitlement :
    ℕ → ℕ → ℕ → Option ℕ → ℕ → Option ℕ → ActivationSource → UserSubscription
new_entitlement id user_id plan_id purchase_id starts_at ends_at source = record {
  id = id;
  user_id = user_id;
  subscription_plan_id = plan_id;
  purchase_id = purchase_id;
  starts_at = starts_at;
  ends_at = ends_at;
  status = EntitlementStatus.active;
  activation_source = source;
  expiration_notified_at = none;
}

-- Only paid plans, and the stored Trial, have an id.
unfoldable pub plan_key : SubscriptionPlan → Result ServiceError ℕ
plan_key plan = elim plan.id [ none ↦ err value_error | some key ↦ ok key ]

unfoldable pub activate_subscription :
    Settings
    → ℕ
    → SubscriptionPlan
    → ActivationSource
    → Option ℕ
    → ℕ
    → Tables
    → Result ServiceError (UserSubscription × Tables)
activate_subscription settings user_id plan source purchase_id now t = do
  (starts_at, ends_at) ← entitlement_dates plan now settings
  plan_id ← plan_key plan
  let replaced =
      if not (code_eq plan.code PlanCode.trial) && leb starts_at now
      then supersede user_id now t.entitlements
      else t.entitlements
  let entitlement = new_entitlement t.next_id user_id plan_id purchase_id starts_at ends_at source
  ok (
    entitlement,
    record t { entitlements = replaced ++ entitlement ∷ []; next_id = suc t.next_id },
  )

-- `locked_user.trial_used_at = moment`
unfoldable pub mark_trial : ℕ → ℕ → Tables → Tables
mark_trial user_id moment t = record t {
  users =
      map (λ u. if u.id == user_id then record u { trial_used_at = some moment } else u) t.users;
}

unfoldable pub is_trial_of : ℕ → UserSubscription → Bool
is_trial_of user_id e = e.user_id == user_id && is_trial_source e.activation_source

unfoldable pub previous_trial : ℕ → Tables → Option UserSubscription
previous_trial user_id t =
    first_by (λ a b. ltb a.starts_at b.starts_at) (filter (is_trial_of user_id) t.entitlements)

unfoldable pub trial_plan : Tables → SubscriptionPlan × Tables
trial_plan t = elim (find (λ p. code_eq p.code PlanCode.trial) t.plans) [
  | some plan ↦ (plan, t)
  | none ↦
      let plan : SubscriptionPlan = record {
        id = some t.next_id;
        code = PlanCode.trial;
        name = "Trial";
        price_cents = 0;
        is_active = false;
      } in
      (plan, record t { plans = t.plans ++ plan ∷ []; next_id = suc t.next_id })
]

-- The first use of the trial.
unfoldable pub start_trial :
    Settings → ℕ → ℕ → Tables → Result ServiceError (Option UserSubscription × Tables)
start_trial settings user_id now t = do
  let (plan, t') = trial_plan t
  (entitlement, t'') ←
      activate_subscription settings user_id plan ActivationSource.trial none now t'
  ok (some entitlement, mark_trial user_id now t'')

unfoldable pub trial_of_user :
    Settings → Option User → ℕ → Tables → Result ServiceError (Option UserSubscription × Tables)
trial_of_user settings none now t = ok (none, t)
trial_of_user settings (some locked_user) now t =
    if is_some locked_user.trial_used_at
    then ok (none, t)
    else elim (previous_trial locked_user.id t) [
      | some previous ↦ ok (none, mark_trial locked_user.id previous.starts_at t)
      | none ↦ start_trial settings locked_user.id now t
    ]

unfoldable pub activate_trial :
    Settings → ℕ → ℕ → Tables → Result ServiceError (Option UserSubscription × Tables)
activate_trial settings user_id now t =
    trial_of_user settings (find (λ u. u.id == user_id) t.users) now t

unfoldable pub revoke : ℕ → Tables → Tables
unfolding set_status
revoke key t = record t {
  entitlements =
      map (λ e. if e.id == key then set_status EntitlementStatus.revoked e else e) t.entitlements;
}

unfoldable pub reset_current_subscription : (String → String) → User → ℕ → Tables → Bool × Tables
reset_current_subscription casefold user now t =
    let (effective, t') = get_effective_subscription casefold user now t in
    elim effective.entitlement [ none ↦ (false, t') | some e ↦ (true, revoke e.id t') ]

-- status == "active" and ends_at is not None and ends_at <= now.
unfoldable pub is_over : ℕ → UserSubscription → Bool
is_over now e = is_active e.status && elim e.ends_at [ none ↦ false | some end ↦ leb end now ]

unfoldable pub expire_subscriptions : ℕ → Tables → List UserSubscription × Tables
unfolding set_status
expire_subscriptions now t = (
  map (set_status EntitlementStatus.expired) (filter (is_over now) t.entitlements),
  record t {
    entitlements =
        map (λ e. if is_over now e then set_status EntitlementStatus.expired e else e)
          t.entitlements;
  },
)
