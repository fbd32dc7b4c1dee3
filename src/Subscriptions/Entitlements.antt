-- ===== src/Subscriptions/Entitlements.antt =====
-- app/subscriptions/service.py: a user's entitlements. The row that a query with no ORDER BY returns
-- first is the first in the table. `activate_trial` locks the user's row, so that its calls for one
-- user run one after the other.
use crous_apartment_monitori.Common.{
  List, ℕ, suc, ◌+◌, String, Bool, true, false, ◌&&◌, ◌||◌, Option, none, some, [], ◌∷◌, ◌++◌,
  filter, find, first_by, any, is_some, str_eq, ltb, leb, ◌==◌, opt_is, if◌then◌else◌, code,
}
use crous_apartment_monitori.Models.Accounts.{User, Admin}
use crous_apartment_monitori.Models.Billing.{
  PlanCode, EntitlementStatus, ActivationSource, SubscriptionPlan, UserSubscription,
}
use crous_apartment_monitori.Subscriptions.Plans.{
  Tables, virtual_plan, ensure_default_plans, plan_by_code, Feature, plan_features,
}

unfoldable pub is_active : EntitlementStatus → Bool
is_active EntitlementStatus.active = true
is_active _ = false

unfoldable pub not_over : ℕ → Option ℕ → Bool
not_over now none = true
not_over now (some end) = ltb now end

-- The WHERE clause for the entitlements of a user that are in force.
unfoldable pub is_live : ℕ → ℕ → UserSubscription → Bool
unfolding is_active not_over
is_live user_id now e =
    e.user_id == user_id && is_active e.status && leb e.starts_at now && not_over now e.ends_at

-- ORDER BY starts_at DESC, id DESC.
unfoldable pub started_later : UserSubscription → UserSubscription → Bool
started_later a b = ltb b.starts_at a.starts_at || (a.starts_at == b.starts_at && ltb b.id a.id)

-- ORDER BY ends_at IS NULL DESC, starts_at DESC, id DESC.
unfoldable pub precedes : UserSubscription → UserSubscription → Bool
unfolding started_later
precedes a b =
    if is_some a.ends_at
    then is_some b.ends_at && started_later a b
    else is_some b.ends_at || started_later a b

unfoldable pub live_entitlement : ℕ → ℕ → Tables → Option UserSubscription
live_entitlement user_id now t = first_by precedes (filter (is_live user_id now) t.entitlements)

-- `session.get(SubscriptionPlan, key)`
unfoldable pub plan_of : ℕ → Tables → Option SubscriptionPlan
plan_of key t = find (λ p. opt_is p.id key) t.plans

pub record EffectiveSubscription : Type 0 where
  pub plan : SubscriptionPlan
  pub entitlement : Option UserSubscription

abbrev pub free_access : EffectiveSubscription
free_access = record { plan = virtual_plan PlanCode.free "Free"; entitlement = none }

unfoldable pub effective_of : Option UserSubscription → Tables → EffectiveSubscription
effective_of none t = free_access
effective_of (some e) t = elim (plan_of e.subscription_plan_id t) [
  | some plan ↦ record { plan = plan; entitlement = some e }
  | none ↦ free_access
]

unfoldable pub is_admin_lifetime : ActivationSource → Bool
is_admin_lifetime ActivationSource.admin_lifetime = true
is_admin_lifetime _ = false

unfoldable pub is_trial_source : ActivationSource → Bool
is_trial_source ActivationSource.trial = true
is_trial_source _ = false

unfoldable pub add_admin_lifetime : Admin → ℕ → User → ℕ → Tables → UserSubscription × Tables
add_admin_lifetime admin plan_id user now t =
    let entitlement : UserSubscription = record {
      id = t.next_id;
      user_id = user.id;
      subscription_plan_id = plan_id;
      purchase_id = none;
      starts_at = now;
      ends_at = none;
      status = EntitlementStatus.active;
      activation_source = ActivationSource.admin_lifetime;
      expiration_notified_at = none;
    } in
    (
      entitlement,
      record t {
        entitlements = t.entitlements ++ entitlement ∷ [];
        audits =
            t.audits
            ++ record {
              id = suc t.next_id;
              actor_admin_id = some admin.id;
              action = "admin_lifetime_subscription_granted";
              target_type = "user";
              target_id = some user.id;
            }
              ∷ [];
        next_id = t.next_id + 2;
      },
    )

-- A stored plan has an id.
unfoldable pub grant_plan :
    Admin → Option SubscriptionPlan → User → ℕ → Tables → Option UserSubscription × Tables
grant_plan admin none user now t = (none, t)
grant_plan admin (some plan) user now t = elim plan.id [
  | none ↦ (none, t)
  | some plan_id ↦
      let (entitlement, t') = add_admin_lifetime admin plan_id user now t in (some entitlement, t')
]

unfoldable pub grant_to : Option Admin → User → ℕ → Tables → Option UserSubscription × Tables
grant_to none user now t = (none, t)
grant_to (some admin) user now t =
    elim (find
      (λ e. e.user_id == user.id && is_admin_lifetime e.activation_source && is_active e.status)
      t.entitlements) [
        | some existing ↦ (some existing, t)
        | none ↦
            let (plan, t') = plan_by_code PlanCode.lifetime t in grant_plan admin plan user now t'
      ]

-- `name.lstrip("@")`
unfoldable pub lstrip_at : String → String
lstrip_at String.[] = ""
lstrip_at (String.◌∷◌ c s) = let rest = lstrip_at s in if code c == 64 then rest else String.◌∷◌ c s

-- `casefold` is `str.casefold`, after the Unicode tables.
module _ (casefold : String → String) where
  -- The active administrator whose key is the user's name; there is none for an absent or empty name.
  unfoldable pub authorized_admin : Option String → List Admin → Option Admin
  authorized_admin none admins = none
  authorized_admin (some name) admins =
      if str_eq name ""
      then none
      else find (λ a. str_eq a.username_key (casefold (lstrip_at name)) && a.is_active) admins

  unfoldable pub grant_admin_lifetime_if_authorized :
      User → ℕ → Tables → Option UserSubscription × Tables
  grant_admin_lifetime_if_authorized user now t =
      grant_to (authorized_admin user.telegram_username t.admins) user now t

  unfoldable pub get_effective_subscription : User → ℕ → Tables → EffectiveSubscription × Tables
  get_effective_subscription user now t =
      let (_, t') = grant_admin_lifetime_if_authorized user now (ensure_default_plans t) in
      (effective_of (live_entitlement user.id now t') t', t')

-- `feature in plan_features(plan)`
abbrev pub feature_eq : Feature → Feature → Bool
feature_eq Feature.advanced_filters Feature.advanced_filters = true
feature_eq Feature.check_now Feature.check_now = true
feature_eq Feature.priority_monitoring Feature.priority_monitoring = true
feature_eq _ _ = false

unfoldable pub has_feature : EffectiveSubscription → Feature → Bool
unfolding plan_features
has_feature effective feature = any (feature_eq feature) (plan_features effective.plan)

-- The next entitlement that has not begun.
unfoldable pub pending_entitlement : ℕ → ℕ → Tables → Option UserSubscription
pending_entitlement user_id now t =
    first_by (λ a b. ltb a.starts_at b.starts_at)
      (filter (λ e. e.user_id == user_id && is_active e.status && ltb now e.starts_at)
        t.entitlements)

unfoldable pub pending_of : Option UserSubscription → Tables → Option EffectiveSubscription
pending_of none t = none
pending_of (some e) t = elim (plan_of e.subscription_plan_id t) [
  | some plan ↦ some (record { plan = plan; entitlement = some e })
  | none ↦ none
]

unfoldable pub get_pending_subscription : User → ℕ → Tables → Option EffectiveSubscription
get_pending_subscription user now t = pending_of (pending_entitlement user.id now t) t
