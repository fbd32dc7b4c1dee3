-- ===== src/Subscriptions/Access.antt =====
-- Which entitlement `get_effective_subscription` returns.
use crous_apartment_monitori.Common.{
  ℕ, ◌≡◌, true, false, Option, none, some, In, All, In-filter, first_by-In, first_by-least,
  first_by-none, is_some, arith, Bool-cases, subst, inl, inr,
}
use crous_apartment_monitori.Models.Billing.{PlanCode, UserSubscription}
use crous_apartment_monitori.Subscriptions.Plans.{Tables}
use crous_apartment_monitori.Subscriptions.Entitlements.{
  is_live, started_later, precedes, live_entitlement, plan_of, EffectiveSubscription,
}

precedes_irrefl : (a : UserSubscription) → precedes a a ≡ false
unfolding precedes started_later
precedes_irrefl a = ground arith

precedes_trans :
    (a b c : UserSubscription) → precedes b a ≡ false → precedes c b ≡ false → precedes c a ≡ false
unfolding precedes started_later
precedes_trans a b c p q = ground arith

precedes_asym : (a b : UserSubscription) → precedes a b ≡ true → precedes b a ≡ false
unfolding precedes started_later
precedes_asym a b p = ground arith

-- `e` is in force for the user at `now`, and no other entitlement in force precedes it.
pub record IsBest (user_id now : ℕ) (t : Tables) (e : UserSubscription) : Type 0 where
  pub stored : In e t.entitlements
  pub live : is_live user_id now e ≡ true
  pub first :
      (x : UserSubscription)
      → In x t.entitlements
      → is_live user_id now x ≡ true
      → precedes x e ≡ false

pub live_entitlement-IsBest :
    (user_id now : ℕ) (t : Tables) {e : UserSubscription}
    → live_entitlement user_id now t ≡ some e
    → IsBest user_id now t e
unfolding live_entitlement
live_entitlement-IsBest user_id now t {e} h =
    let found = (In-filter (is_live user_id now) e t.entitlements).0 (first_by-In precedes _ h) in
    record {
      stored = found.0;
      live = found.1;
      first = λ x m p.
          first_by-least precedes precedes_irrefl precedes_trans precedes_asym _ h x
            ((In-filter (is_live user_id now) x t.entitlements).1 (m, p));
    }

pub live_entitlement-none :
    (user_id now : ℕ) (t : Tables)
    → live_entitlement user_id now t ≡ none
    → (x : UserSubscription) → In x t.entitlements
    → is_live user_id now x ≡ false
unfolding live_entitlement
live_entitlement-none user_id now t h x m = elim (Bool-cases (is_live user_id now x)) [
  | inl p ↦ absurd (
      subst (λ l. In x l) (first_by-none precedes _ h)
        ((In-filter (is_live user_id now) x t.entitlements).1 (m, p)))
  | inr p ↦ p
]

-- What the foreign key of `subscription_plan_id` guarantees.
abbrev pub PlansExist : Tables → Type 0
PlansExist t = All (λ e. is_some (plan_of e.subscription_plan_id t) ≡ true) t.entitlements

-- What the effective subscription of a user must be.
abbrev pub Effective : ℕ → ℕ → Tables → EffectiveSubscription → Option UserSubscription → Type 0
Effective user_id now t eff none =
    (eff.plan.code ≡ PlanCode.free)
    × ((x : UserSubscription) → In x t.entitlements → is_live user_id now x ≡ false)
Effective user_id now t eff (some e) =
    IsBest user_id now t e × (plan_of e.subscription_plan_id t ≡ some eff.plan)
