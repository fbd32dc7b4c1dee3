-- ===== src/Subscriptions/Plans.antt =====
-- app/subscriptions/service.py: the plans and what they grant. `Tables` is what a session of the
-- service reads and writes; each table is the list of its rows in the order of their ids, and
-- `next_id` is the next value of the sequences that number new rows.
use crous_apartment_monitori.Common.{
  ℕ, suc, String, Bool, true, false, ◌&&◌, Option, none, some, List, [], ◌∷◌, ◌++◌, map, filter,
  find, any, str_eq, if◌then◌else◌,
}
use crous_apartment_monitori.Models.Accounts.{User, Admin, AdminAudit}
use crous_apartment_monitori.Models.Billing.{PlanCode, SubscriptionPlan, UserSubscription}
use crous_apartment_monitori.Settings.{Settings}

pub record Tables : Type 0 where
  pub users : List User
  pub plans : List SubscriptionPlan
  pub entitlements : List UserSubscription
  pub admins : List Admin
  pub audits : List AdminAudit
  pub next_id : ℕ

-- `a == b` on plan codes.
unfoldable pub code_eq : PlanCode → PlanCode → Bool
code_eq PlanCode.free PlanCode.free = true
code_eq PlanCode.trial PlanCode.trial = true
code_eq PlanCode.season PlanCode.season = true
code_eq PlanCode.lifetime PlanCode.lifetime = true
code_eq (PlanCode.other a) (PlanCode.other b) = str_eq a b
code_eq _ _ = false

-- `_virtual_plan`: a plan that is not stored.
unfoldable pub virtual_plan : PlanCode → String → SubscriptionPlan
virtual_plan code name = record {
  id = none;
  code = code;
  name = name;
  price_cents = 0;
  is_active = true;
}

-- The two paid products are added when they are missing, and only renamed otherwise.
unfoldable pub seed_plan : PlanCode → String → ℕ → Tables → Tables
unfolding code_eq
seed_plan code name price_cents t =
    if any (λ p. code_eq p.code code) t.plans
    then record t {
      plans = map (λ p. if code_eq p.code code then record p { name = name } else p) t.plans;
    }
    else record t {
      plans =
          t.plans
          ++ record {
            id = some t.next_id;
            code = code;
            name = name;
            price_cents = price_cents;
            is_active = true;
          }
            ∷ [];
      next_id = suc t.next_id;
    }

unfoldable pub ensure_default_plans : Tables → Tables
unfolding seed_plan
ensure_default_plans t =
    seed_plan PlanCode.lifetime "Lifetime" 2400 (seed_plan PlanCode.season "Season" 1000 t)

unfoldable pub stored_plan : PlanCode → Tables → Option SubscriptionPlan
unfolding code_eq
stored_plan code t = find (λ p. code_eq p.code code && p.is_active) t.plans

unfoldable pub plan_by_code : PlanCode → Tables → Option SubscriptionPlan × Tables
unfolding ensure_default_plans virtual_plan stored_plan
plan_by_code PlanCode.free t = (some (virtual_plan PlanCode.free "Free"), ensure_default_plans t)
plan_by_code PlanCode.trial t = (some (virtual_plan PlanCode.trial "Trial"), ensure_default_plans t)
plan_by_code code t = let t' = ensure_default_plans t in (stored_plan code t', t')

abbrev is_paid_code : PlanCode → Bool
is_paid_code PlanCode.season = true
is_paid_code PlanCode.lifetime = true
is_paid_code _ = false

unfoldable pub paid_plans : Tables → List SubscriptionPlan × Tables
unfolding ensure_default_plans
paid_plans t =
    let t' = ensure_default_plans t in
    (filter (λ p. is_paid_code p.code && p.is_active) t'.plans, t')

pub data Feature : Type 0 where
  advanced_filters check_now priority_monitoring : Feature

abbrev pub premium_features : List Feature
premium_features = Feature.advanced_filters ∷ Feature.check_now ∷ Feature.priority_monitoring ∷ []

abbrev code_features : PlanCode → List Feature
code_features PlanCode.trial = premium_features
code_features PlanCode.season = premium_features
code_features PlanCode.lifetime = premium_features
code_features _ = []

unfoldable pub plan_features : SubscriptionPlan → List Feature
plan_features plan = code_features plan.code

unfoldable pub plan_interval : Settings → SubscriptionPlan → ℕ
unfolding plan_features
plan_interval settings plan = elim (plan_features plan) [
  | [] ↦ settings.free_monitoring_interval_seconds
  | _ ↦ settings.premium_monitoring_interval_seconds
]
