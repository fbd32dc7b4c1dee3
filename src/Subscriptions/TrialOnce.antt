-- ===== src/Subscriptions/TrialOnce.antt =====
-- The trial is granted once.
use crous_apartment_monitori.Common.{
  >>=-eq-ok, first_by-none, length-filter-snoc, ◌∙◌, ◌⊎◌, if◌then◌else◌, ◌&&◌, ◌==◌, ℕ, ◌+◌, ◌≤◌,
  String, ◌≡◌, refl, false, Option, none, some, List, [], ◌∷◌, ◌++◌, filter, length, length-append,
  length-filter-map, filter-append, arith, ok, Option-cases, inl, inr,
}
use crous_apartment_monitori.Models.Accounts.{Admin, User}
use crous_apartment_monitori.Models.Billing.{
  PlanCode, ActivationSource, SubscriptionPlan, UserSubscription,
}
use crous_apartment_monitori.Settings.{Settings}
use crous_apartment_monitori.Subscriptions.Plans.{
  stored_plan, Tables, ensure_default_plans, plan_by_code, seed_plan,
}
use crous_apartment_monitori.Subscriptions.Entitlements.{
  grant_admin_lifetime_if_authorized, grant_to, add_admin_lifetime, grant_plan, is_trial_source,
  get_effective_subscription,
}
use crous_apartment_monitori.Subscriptions.Activation.{
  trial_plan, mark_trial, previous_trial, start_trial, revoke, trial_of_user, plan_key,
  new_entitlement, supersede, is_trial_of, activate_subscription, activate_trial,
  reset_current_subscription, expire_subscriptions,
}

-- How many trials the user has been granted.
unfoldable pub trials : ℕ → Tables → ℕ
trials user_id t = length (filter (is_trial_of user_id) t.entitlements)

-- The operations of the service, in any order and at any moments. `activate_subscription` is called
-- with a source other than the trial's, as app/payments/stripe.py does; `activate_trial` alone gives
-- it the trial's.
pub data Step (casefold : String → String) (settings : Settings) : Tables → Tables → Type 0 where
  trial :
      (user_id now : ℕ) (t t' : Tables) (r : Option UserSubscription)
      → activate_trial settings user_id now t ≡ ok (r, t')
      → Step casefold settings t t'
  activate :
      (user_id : ℕ) (plan : SubscriptionPlan) (source : ActivationSource) (purchase_id : Option ℕ)
      (now : ℕ) (t t' : Tables) (e : UserSubscription)
      → is_trial_source source ≡ false
      → activate_subscription settings user_id plan source purchase_id now t ≡ ok (e, t')
      → Step casefold settings t t'
  look :
      (user : User) (now : ℕ) (t : Tables)
      → Step casefold settings t (get_effective_subscription casefold user now t).1
  reset :
      (user : User) (now : ℕ) (t : Tables)
      → Step casefold settings t (reset_current_subscription casefold user now t).1
  expire : (now : ℕ) (t : Tables) → Step casefold settings t (expire_subscriptions now t).1

pub data Reach (casefold : String → String) (settings : Settings) (s : Tables)
    : Tables → Type 0 where
  here : Reach casefold settings s s
  next :
      {t u : Tables}
      → Reach casefold settings s t
      → Step casefold settings t u
      → Reach casefold settings s u

supersede-trials :
    (k user_id now : ℕ) (es : List UserSubscription)
    → length (filter (is_trial_of k) (supersede user_id now es))
      ≡ length (filter (is_trial_of k) es)
unfolding supersede is_trial_of
supersede-trials k user_id now es = length-filter-map (is_trial_of k) _ es (λ e. ground arith)

-- An activation appends one row, which belongs to the user and names the source.
appended_row :
    (settings : Settings) (user_id : ℕ) (plan : SubscriptionPlan) (source : ActivationSource)
    (purchase_id : Option ℕ) (now : ℕ) (t t' : Tables) (e : UserSubscription)
    → activate_subscription settings user_id plan source purchase_id now t ≡ ok (e, t')
    → ((t'.entitlements ≡ supersede user_id now t.entitlements ++ e ∷ [])
        ⊎ (t'.entitlements ≡ t.entitlements ++ e ∷ []))
      × (e.user_id ≡ user_id)
      × (e.activation_source ≡ source)
      × (t'.users ≡ t.users)
unfolding activate_subscription new_entitlement plan_key
appended_row settings user_id plan source purchase_id now t t' e h = ground arith

-- An activation counts as a trial of its user by its source.
trials-activate :
    (settings : Settings) (k user_id : ℕ) (plan : SubscriptionPlan) (source : ActivationSource)
    (purchase_id : Option ℕ) (now : ℕ) (t t' : Tables) (e : UserSubscription)
    → activate_subscription settings user_id plan source purchase_id now t ≡ ok (e, t')
    → trials k t' ≡ trials k t + (if user_id == k && is_trial_source source then 1 else 0)
unfolding trials is_trial_of
trials-activate settings k user_id plan source purchase_id now t t' e h =
    let (rows, owner, named, _) =
      appended_row settings user_id plan source purchase_id now t t' e h in
    let counted : length (filter (is_trial_of k) (e ∷ []))
        ≡ (if user_id == k && is_trial_source source then 1 else 0) =
      ground arith in
    elim rows [
      | inl r ↦ rw (
        r,
        filter-append (is_trial_of k) _ (e ∷ []),
        length-append,
        supersede-trials k user_id now t.entitlements,
        counted,
      )
      | inr r ↦ rw (r, filter-append (is_trial_of k) _ (e ∷ []), length-append, counted)
    ]

-- A lifetime that is granted to an administrator is no trial.
trials-grant_plan :
    (k : ℕ) (admin : Admin) (plan : Option SubscriptionPlan) (user : User) (now : ℕ) (t : Tables)
    → trials k (grant_plan admin plan user now t).1 ≡ trials k t
unfolding trials grant_plan add_admin_lifetime is_trial_of is_trial_source
trials-grant_plan k admin none user now t = refl
trials-grant_plan k admin (some plan) user now t = elim (Option-cases plan.id) [
  | inl q ↦ rw (grant_plan, q)
  | inr (key, q) ↦ rw (grant_plan, q) (rw length-filter-snoc (ground arith))
]

trials-ensure : (k : ℕ) (t : Tables) → trials k (ensure_default_plans t) ≡ trials k t
unfolding trials ensure_default_plans seed_plan
trials-ensure k t = ground arith

trials-grant_to :
    (k : ℕ) (admin : Option Admin) (user : User) (now : ℕ) (t : Tables)
    → trials k (grant_to admin user now t).1 ≡ trials k t
unfolding grant_to plan_by_code
trials-grant_to k none user now t = refl
trials-grant_to k (some admin) user now t =
    let t' = ensure_default_plans t in
    ground (
      arith,
      trials-ensure k t,
      trials-grant_plan k admin (stored_plan PlanCode.lifetime t') user now t',
    )

trials-look :
    (casefold : String → String) (k : ℕ) (user : User) (now : ℕ) (t : Tables)
    → trials k (get_effective_subscription casefold user now t).1 ≡ trials k t
unfolding get_effective_subscription grant_admin_lifetime_if_authorized
trials-look casefold k user now t =
    trials-grant_to k _ user now (ensure_default_plans t) ∙ trials-ensure k t

trials-revoke : (k key : ℕ) (t : Tables) → trials k (revoke key t) ≡ trials k t
unfolding trials revoke is_trial_of
trials-revoke k key t = length-filter-map (is_trial_of k) _ t.entitlements (λ e. ground arith)

trials-reset :
    (casefold : String → String) (k : ℕ) (user : User) (now : ℕ) (t : Tables)
    → trials k (reset_current_subscription casefold user now t).1 ≡ trials k t
unfolding reset_current_subscription
trials-reset casefold k user now t =
    elim (Option-cases (get_effective_subscription casefold user now t).0.entitlement) [
      | inl q ↦ rw (reset_current_subscription, q) (trials-look casefold k user now t)
      | inr (e, q) ↦
          rw (reset_current_subscription, q)
            (trials-revoke k e.id _ ∙ trials-look casefold k user now t)
    ]

trials-expire : (k now : ℕ) (t : Tables) → trials k (expire_subscriptions now t).1 ≡ trials k t
unfolding trials expire_subscriptions is_trial_of
trials-expire k now t = length-filter-map (is_trial_of k) _ t.entitlements (λ e. ground arith)

trials-mark :
    (k user_id moment : ℕ) (t : Tables) → trials k (mark_trial user_id moment t) ≡ trials k t
unfolding trials mark_trial
trials-mark k user_id moment t = refl

trials-trial_plan : (k : ℕ) (t : Tables) → trials k (trial_plan t).1 ≡ trials k t
unfolding trials trial_plan
trials-trial_plan k t = ground arith

trials-start :
    (settings : Settings) (k user_id now : ℕ) (t t' : Tables) (r : Option UserSubscription)
    → start_trial settings user_id now t ≡ ok (r, t')
    → trials k t' ≡ trials k t + (if user_id == k then 1 else 0)
unfolding start_trial is_trial_source
trials-start settings k user_id now t t' r h =
    let (p, activated, rest) =
      >>=-eq-ok
        (activate_subscription settings user_id (trial_plan t).0 ActivationSource.trial none now
          (trial_plan t).1)
        _ h in
    ground (
      arith,
      trials-activate settings k user_id (trial_plan t).0 ActivationSource.trial none now
          (trial_plan t).1 p.1 p.0 activated,
      trials-mark k user_id now p.1,
      trials-trial_plan k t,
    )

no_trial : (user_id : ℕ) (t : Tables) → previous_trial user_id t ≡ none → trials user_id t ≡ 0
unfolding previous_trial trials
no_trial user_id t h = rw (first_by-none _ (filter (is_trial_of user_id) t.entitlements) h)

-- A user with a trial is not granted another; one without is granted at most one.
trials-of_user :
    (settings : Settings) (k now : ℕ) (user : Option User) (t t' : Tables)
    (r : Option UserSubscription)
    → trial_of_user settings user now t ≡ ok (r, t')
    → (trials k t' ≡ trials k t) ⊎ ((trials k t ≡ 0) × (trials k t' ≡ 1))
unfolding trial_of_user
trials-of_user settings k now none t t' r h = ground arith
trials-of_user settings k now (some u) t t' r h = elim (Option-cases (previous_trial u.id t)) [
  | inl q ↦ ground (arith, trials-start settings k u.id now t t' r, no_trial u.id t)
  | inr (e, q) ↦ ground (arith, trials-mark k u.id e.starts_at t)
]

abbrev pub AtMostOneTrial : Tables → Type 0
AtMostOneTrial t = (k : ℕ) → trials k t ≤ 1

Step-AtMostOneTrial :
    (casefold : String → String) (settings : Settings) {t u : Tables}
    → Step casefold settings t u
    → AtMostOneTrial t
    → AtMostOneTrial u
unfolding activate_trial
Step-AtMostOneTrial casefold settings (trial user_id now t t' r h) a k =
    ground (arith, a k, trials-of_user settings k now _ t t' r h)
Step-AtMostOneTrial casefold settings (activate user_id plan source purchase_id now t t' e s h) a
      k =
    ground (arith, a k, trials-activate settings k user_id plan source purchase_id now t t' e h)
Step-AtMostOneTrial casefold settings (look user now t) a k =
    omega (arith, a k, trials-look casefold k user now t)
Step-AtMostOneTrial casefold settings (reset user now t) a k =
    omega (arith, a k, trials-reset casefold k user now t)
Step-AtMostOneTrial casefold settings (expire now t) a k = omega (arith, a k, trials-expire k now t)

-- From tables in which no user has been granted more than one trial no user is granted a second one,
-- whatever calls of `activate_trial`, `get_effective_subscription`, `reset_current_subscription`,
-- `expire_subscriptions`, and of `activate_subscription` with a source other than the trial's follow,
-- in any order and at any moments.
pub Reach-AtMostOneTrial :
    (casefold : String → String) (settings : Settings) (s t : Tables)
    → AtMostOneTrial s
    → Reach casefold settings s t
    → AtMostOneTrial t
Reach-AtMostOneTrial casefold settings s t a here = a
Reach-AtMostOneTrial casefold settings s t a (next r st) =
    Step-AtMostOneTrial casefold settings st (Reach-AtMostOneTrial casefold settings s _ a r)
