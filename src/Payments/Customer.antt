-- ===== src/Payments/Customer.antt =====
-- The user and the plan that the metadata of a checkout names.
use crous_apartment_monitori.Subscriptions.Plans.{code_eq}
use crous_apartment_monitori.Models.Billing.{SubscriptionPlan}
use crous_apartment_monitori.Models.Accounts.{User}
use crous_apartment_monitori.Payments.Checkout.{
  metadata_does_not_match, metadata_is_incomplete, PaymentError, PaymentTables, lift, user_by_id,
  or_raise, customer, plan_by_id, Metadata,
}
use crous_apartment_monitori.Common.{
  >>-eq-ok, >>=-elim, find-some, ℕ, ◌≡◌, ap, subst, ◌∙◌, true, ◌&&◌, Option, none, some, arith,
  opt_is, Result, ok, err, guard,
}

-- The plan with its key, and the user, are those of the tables.
pub record Found (metadata : Metadata) (t : PaymentTables) (user : User) (plan : SubscriptionPlan)
    : Type 0 where
  pub key : ℕ
  pub plan_id : plan.id ≡ some key
  pub plan_found : plan_by_id key t ≡ some plan
  pub user_found : user_by_id user.id t ≡ some user
  pub named_user : metadata.internal_user_id ≡ some user.id
  pub named_plan : metadata.subscription_id ≡ some key

pub or_raise-eq-ok {ℓ} :
    {E : Type 0} {A : Type ℓ} (e : E) (o : Option A) {a : A} → or_raise e o ≡ ok a → o ≡ some a
or_raise-eq-ok e none h = cc
or_raise-eq-ok e (some b) h = cc

pub lift-eq-ok {ℓ} :
    {E F : Type 0} {A : Type ℓ} (f : E → F) (m : Result E A) {a : A} → lift f m ≡ ok a → m ≡ ok a
lift-eq-ok f (ok b) h = cc
lift-eq-ok f (err e) h = cc

user_key :
    (key : ℕ) (t : PaymentTables) {user : User} → user_by_id key t ≡ some user → key ≡ user.id
unfolding user_by_id
user_key key t h = ground (arith, find-some _ t.subscriptions.users h)

plan_id-eq :
    (key : ℕ) (t : PaymentTables) {plan : SubscriptionPlan}
    → plan_by_id key t ≡ some plan
    → plan.id ≡ some key
unfolding plan_by_id
plan_id-eq key t {plan} h = is_key plan.id (find-some _ t.subscriptions.plans h).1
  where
    is_key : (o : Option ℕ) → opt_is o key ≡ true → o ≡ some key
    is_key none e = cc
    is_key (some k) e = ap some (ground arith)

pub customer-Found :
    (metadata : Metadata) (t : PaymentTables) (user : User) (plan : SubscriptionPlan)
    → customer metadata t ≡ ok (user, plan)
    → Found metadata t user plan
unfolding customer
customer-Found metadata t user plan h =
    >>=-elim (or_raise metadata_is_incomplete metadata.internal_user_id) h (λ user_id u h1.
      >>=-elim (or_raise metadata_is_incomplete metadata.telegram_user_id) h1 (λ telegram_id _ h2.
        >>=-elim (or_raise metadata_is_incomplete metadata.subscription_id) h2 (λ key p h3.
          >>=-elim (or_raise metadata_is_incomplete metadata.plan_code) h3 (λ code _ h4.
            >>=-elim (or_raise metadata_does_not_match (user_by_id user_id t)) h4 (λ user' fu h5.
              >>=-elim (or_raise metadata_does_not_match (plan_by_id key t)) h5 (λ plan' fp h6.
                found metadata t user' plan' user_id key (or_raise-eq-ok _ _ u)
                  (or_raise-eq-ok _ _ p) (or_raise-eq-ok _ _ fu) (or_raise-eq-ok _ _ fp)
                  (>>-eq-ok
                    (guard (opt_is user'.telegram_user_id telegram_id && code_eq plan'.code code)
                      metadata_does_not_match)
                    _ h6)))))))
  where
    found :
        (metadata : Metadata) (t : PaymentTables) (user' : User) (plan' : SubscriptionPlan)
        (user_id key : ℕ)
        → metadata.internal_user_id ≡ some user_id
        → metadata.subscription_id ≡ some key
        → user_by_id user_id t ≡ some user'
        → plan_by_id key t ≡ some plan'
        → ◌≡◌ {A = Result PaymentError (User × SubscriptionPlan)}
            (ok (user', plan'))
            (ok (user, plan))
        → Found metadata t user plan
    found metadata t user' plan' user_id key u p fu fp q =
        let e : user_id ≡ user'.id = user_key user_id t fu in
        let same : (user' ≡ user) × (plan' ≡ plan) = ground arith in
        subst (λ x. Found metadata t x plan) same.0
          (subst (λ y. Found metadata t user' y) same.1
            (record {
              key = key;
              plan_id = plan_id-eq key t fp;
              plan_found = fp;
              user_found = subst (λ k. user_by_id k t ≡ some user') e fu;
              named_user = u ∙ ap some e;
              named_plan = p;
            }))
