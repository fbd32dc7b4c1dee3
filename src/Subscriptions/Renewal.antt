-- ===== src/Subscriptions/Renewal.antt =====
-- What `activate_subscription` and `expire_subscriptions` do to the entitlements in force.
use crous_apartment_monitori.Common.{
  append-nil, ==-refl, filter-append, if◌then◌else◌, ℕ, ◌≤◌, ◌≡◌, Bool, false, not, Option, List,
  [], ◌∷◌, ◌++◌, filter, filter-map_eq, filter-map_none, arith, ◌==◌, ok,
}
use crous_apartment_monitori.Models.Billing.{
  PlanCode, ActivationSource, SubscriptionPlan, UserSubscription,
}
use crous_apartment_monitori.Settings.{Settings}
use crous_apartment_monitori.Subscriptions.Plans.{Tables, code_eq}
use crous_apartment_monitori.Subscriptions.Entitlements.{not_over, is_live}
use crous_apartment_monitori.Subscriptions.Activation.{
  is_over, expire_subscriptions, supersede, new_entitlement, plan_key, activate_subscription,
}

-- The user's rows that are in force are superseded.
supersede-none :
    (user_id now : ℕ) (es : List UserSubscription)
    → filter (is_live user_id now) (supersede user_id now es) ≡ []
unfolding supersede is_live
supersede-none user_id now es = filter-map_none (is_live user_id now) _ es (λ e. ground arith)

-- A row of another user.
abbrev pub of_other : ℕ → UserSubscription → Bool
of_other user_id e = not (e.user_id == user_id)

supersede-others :
    (user_id now : ℕ) (es : List UserSubscription)
    → filter (of_other user_id) (supersede user_id now es) ≡ filter (of_other user_id) es
unfolding supersede is_live
supersede-others user_id now es =
    filter-map_eq (of_other user_id) _ es (λ e. ground arith) (λ e h. ground arith)

-- How an activation that succeeds and begins at once leaves the table.
activated_table :
    (settings : Settings) (user_id : ℕ) (plan : SubscriptionPlan) (source : ActivationSource)
    (purchase_id : Option ℕ) (now : ℕ) (t : Tables) {e : UserSubscription} {t' : Tables}
    → code_eq plan.code PlanCode.trial ≡ false
    → activate_subscription settings user_id plan source purchase_id now t ≡ ok (e, t')
    → e.starts_at ≤ now
    → (t'.entitlements ≡ supersede user_id now t.entitlements ++ e ∷ [])
      × (is_live user_id now e ≡ not_over now e.ends_at)
      × (e.user_id ≡ user_id)
unfolding activate_subscription is_live new_entitlement plan_key
activated_table settings user_id plan source purchase_id now t c h s = ground arith

-- An activation of a plan other than the trial that begins at once leaves at most one entitlement
-- of the user in force at that moment: the new one, unless its end has come. The rows of all other
-- users are as they were.
pub activate_subscription-sole_live :
    (settings : Settings) (user_id : ℕ) (plan : SubscriptionPlan) (source : ActivationSource)
    (purchase_id : Option ℕ) (now : ℕ) (t : Tables) {e : UserSubscription} {t' : Tables}
    → code_eq plan.code PlanCode.trial ≡ false
    → activate_subscription settings user_id plan source purchase_id now t ≡ ok (e, t')
    → e.starts_at ≤ now
    → (filter (is_live user_id now) t'.entitlements
        ≡ (if not_over now e.ends_at then e ∷ [] else []))
      × (filter (of_other user_id) t'.entitlements ≡ filter (of_other user_id) t.entitlements)
activate_subscription-sole_live settings user_id plan source purchase_id now t {e} c h s =
    let (rows, live, owner) =
      activated_table settings user_id plan source purchase_id now t c h s in
    let old = supersede user_id now t.entitlements in
    (
      rw (
        rows,
        filter-append (is_live user_id now) old (e ∷ []),
        supersede-none user_id now t.entitlements,
        live,
      ),
      rw (
        rows,
        filter-append (of_other user_id) old (e ∷ []),
        supersede-others user_id now t.entitlements,
        owner,
        ==-refl,
        append-nil,
      ),
    )

-- The job that expires entitlements at `now` leaves no active row whose end has come, and takes
-- access from nobody: at `now` and at any later moment each user has the same entitlements in force
-- as without it.
pub expire_subscriptions-keeps_live :
    (user_id now later : ℕ) (t : Tables)
    → now ≤ later
    → (filter (is_over now) (expire_subscriptions now t).1.entitlements ≡ [])
      × (filter (is_live user_id later) (expire_subscriptions now t).1.entitlements
          ≡ filter (is_live user_id later) t.entitlements)
unfolding expire_subscriptions is_over is_live
expire_subscriptions-keeps_live user_id now later t h = (
  filter-map_none (is_over now) _ t.entitlements (λ e. ground arith),
  filter-map_eq (is_live user_id later) _ t.entitlements (λ e. ground arith) (λ e p. ground arith),
)
