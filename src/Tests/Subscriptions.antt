-- ===== src/Tests/Subscriptions.antt =====
-- app/subscriptions/service.py on small tables.
use crous_apartment_monitori.Subscriptions.Renewal.{
  activate_subscription-sole_live, of_other, expire_subscriptions-keeps_live,
}
use crous_apartment_monitori.Common.Calendar.{
  year_of_ordinal, year_of, last_instant, first_instant, days_before_year, days_before_month,
  days_in_month, ordinal, date, day_length,
}
use crous_apartment_monitori.Settings.{default_settings}
use crous_apartment_monitori.Subscriptions.TrialOnce.{
  Step, here, next, Reach-AtMostOneTrial, trials, AtMostOneTrial,
}
use crous_apartment_monitori.Subscriptions.Season.Window.{
  season_window-FirstOpenSeason, FirstOpenSeason,
}
use crous_apartment_monitori.Models.Billing.{
  ActivationSource, EntitlementStatus, PlanCode, SubscriptionPlan, UserSubscription,
}
use crous_apartment_monitori.Subscriptions.Season.{
  season_end, season_start, entitlement_dates, season_window,
}
use crous_apartment_monitori.Models.Accounts.{User}
use crous_apartment_monitori.Subscriptions.Activation.{
  mark_trial, is_trial_of, supersede, previous_trial, new_entitlement, trial_plan,
  expire_subscriptions, start_trial, plan_key, is_over, trial_of_user, activate_trial,
  activate_subscription,
}
use crous_apartment_monitori.Subscriptions.Plans.{code_eq, Tables}
use crous_apartment_monitori.Subscriptions.Entitlements.{is_trial_source, not_over, is_live}
use crous_apartment_monitori.Common.{
  ok, arith, ◌-◌, true, if◌then◌else◌, [], false, ◌+◌, none, some, ◌∷◌, ◌*◌, filter, ℕ, ◌≡◌, refl,
}

abbrev season_plan : SubscriptionPlan
season_plan = record {
  id = some 2;
  code = PlanCode.season;
  name = "Season";
  price_cents = 1000;
  is_active = true;
}

abbrev lifetime_plan : SubscriptionPlan
lifetime_plan = record {
  id = some 3;
  code = PlanCode.lifetime;
  name = "Lifetime";
  price_cents = 2400;
  is_active = true;
}

abbrev user : User
user = record {
  id = 5;
  telegram_user_id = some 50;
  telegram_chat_id = some 50;
  telegram_username = none;
  language = "fr";
  telegram_language_code = none;
  is_blocked = false;
  active_navigation_chat_id = none;
  active_navigation_message_id = none;
  active_navigation_screen = none;
  active_navigation_version = 0;
  current_fsm_state = none;
  trial_used_at = none;
  digest_opted_out = false;
}

abbrev tables : Tables
tables = record {
  users = user ∷ [];
  plans = season_plan ∷ lifetime_plan ∷ [];
  entitlements = [];
  admins = [];
  audits = [];
  next_id = 10;
}

-- 29 July 2026, at noon.
abbrev summer : ℕ
summer = 739826 * day_length + 43200000000

-- 25 December 2026.
abbrev winter : ℕ
winter = 739975 * day_length

-- The season of 2026 is open in July, and in December the next is that of 2027.
season_in_july :
    season_window summer default_settings
    ≡ ok (739804 * day_length, 739920 * day_length + (day_length - 1))
unfolding season_window season_start season_end date ordinal days_in_month days_before_month
    days_before_year first_instant last_instant year_of year_of_ordinal
season_in_july = refl

season_in_december :
    season_window winter default_settings
    ≡ ok (740169 * day_length, 740285 * day_length + (day_length - 1))
unfolding season_window season_start season_end date ordinal days_in_month days_before_month
    days_before_year first_instant last_instant year_of year_of_ordinal
season_in_december = refl

season_window-FirstOpenSeason_example :
    FirstOpenSeason default_settings winter
      (740169 * day_length)
      (740285 * day_length + (day_length - 1))
season_window-FirstOpenSeason_example =
    season_window-FirstOpenSeason default_settings winter (omega arith) season_in_december

abbrev lifetime_entitlement : UserSubscription
lifetime_entitlement = record {
  id = 10;
  user_id = 5;
  subscription_plan_id = 3;
  purchase_id = some 9;
  starts_at = summer;
  ends_at = none;
  status = EntitlementStatus.active;
  activation_source = ActivationSource.stripe;
  expiration_notified_at = none;
}

abbrev with_lifetime : Tables
with_lifetime = record tables { entitlements = lifetime_entitlement ∷ []; next_id = 11 }

buying :
    activate_subscription default_settings 5 lifetime_plan ActivationSource.stripe
      (some 9)
      summer
      tables
    ≡ ok (lifetime_entitlement, with_lifetime)
unfolding activate_subscription entitlement_dates plan_key new_entitlement supersede code_eq
buying = refl

activate_subscription-sole_live_example :
    (filter (is_live 5 summer) with_lifetime.entitlements
      ≡ (if not_over summer none then lifetime_entitlement ∷ [] else []))
    × (filter (of_other 5) with_lifetime.entitlements ≡ filter (of_other 5) tables.entitlements)
unfolding code_eq
activate_subscription-sole_live_example =
    activate_subscription-sole_live default_settings 5 lifetime_plan ActivationSource.stripe
      (some 9) summer tables refl buying (omega arith)

expire_subscriptions-keeps_live_example :
    (filter (is_over summer) (expire_subscriptions summer with_lifetime).1.entitlements ≡ [])
    × (filter (is_live 5 winter) (expire_subscriptions summer with_lifetime).1.entitlements
        ≡ filter (is_live 5 winter) with_lifetime.entitlements)
expire_subscriptions-keeps_live_example =
    expire_subscriptions-keeps_live 5 summer winter with_lifetime (omega arith)

abbrev trial_entitlement : UserSubscription
trial_entitlement = record {
  id = 11;
  user_id = 5;
  subscription_plan_id = 10;
  purchase_id = none;
  starts_at = summer;
  ends_at = some (summer + 43200000000);
  status = EntitlementStatus.active;
  activation_source = ActivationSource.trial;
  expiration_notified_at = none;
}

abbrev on_trial : Tables
on_trial = record tables {
  users = record user { trial_used_at = some summer } ∷ [];
  plans =
      season_plan
      ∷ lifetime_plan
      ∷ record {
        id = some 10;
        code = PlanCode.trial;
        name = "Trial";
        price_cents = 0;
        is_active = false;
      }
      ∷ [];
  entitlements = trial_entitlement ∷ [];
  next_id = 12;
}

trying : activate_trial default_settings 5 summer tables ≡ ok (some trial_entitlement, on_trial)
unfolding activate_trial trial_of_user start_trial trial_plan previous_trial is_trial_of
    is_trial_source mark_trial activate_subscription entitlement_dates plan_key new_entitlement
    supersede code_eq
trying = refl

no_trials : AtMostOneTrial tables
unfolding trials
no_trials k = omega arith

Reach-AtMostOneTrial_example : AtMostOneTrial on_trial
Reach-AtMostOneTrial_example =
    Reach-AtMostOneTrial (λ s. s) default_settings tables on_trial no_trials
      (next here (Step.trial 5 summer tables on_trial (some trial_entitlement) trying))
