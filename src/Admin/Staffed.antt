-- ===== src/Admin/Staffed.antt =====
-- app/admin: the number of active superadmins after a change of one account.
use crous_apartment_monitori.Models.Accounts.{Admin, AdminRole}
use crous_apartment_monitori.Admin.Sessions.{Panel}
use crous_apartment_monitori.Admin.Access.{is_superadmin}
use crous_apartment_monitori.Admin.Accounts.{assign_admin}
use crous_apartment_monitori.Admin.Updates.{
  AdminUpdateRequest, is_active_superadmin, active_superadmins, removing_superadmin, demotes,
  deactivates, value_or, updated,
}
use crous_apartment_monitori.Common.Text.{Unicode}
use crous_apartment_monitori.Common.{
  In-unique, NoDup, In, ℕ, suc, ◌≤◌, ◌<◌, String, ◌≡◌, refl, subst, inl, inr, Bool, true, false,
  ◌&&◌, Option, none, some, List, [], ◌∷◌, map, arith, leb, ◌==◌, if◌then◌else◌, Bool-cases, length,
  filter, All, contains,
}

-- The rows have distinct ids, which the sequence has passed, and an active superadmin is among them.
pub record Staffed (p : Panel) : Type 0 where
  pub ids : NoDup (map (λ a. a.id) p.admins)
  pub below : All (λ n. n < p.next_id) (map (λ a. a.id) p.admins)
  pub staffed : 1 ≤ active_superadmins p

abbrev pub assigned : ℕ → (Admin → Admin) → Admin → Admin
assigned key change a = if a.id == key then change a else a

assigned-elsewhere :
    (key : ℕ) (change : Admin → Admin) (rows : List Admin)
    → contains (map (λ a. a.id) rows) key ≡ false
    → map (assigned key change) rows ≡ rows
assigned-elsewhere key change [] h = refl
assigned-elsewhere key change (a ∷ rows) h = ground (arith, assigned-elsewhere key change rows)

-- A change of one row takes away one active superadmin at most.
pub count-assigned :
    (key : ℕ) (change : Admin → Admin) (rows : List Admin)
    → NoDup (map (λ a. a.id) rows)
    → length (filter is_active_superadmin rows)
      ≤ suc (length (filter is_active_superadmin (map (assigned key change) rows)))
count-assigned key change [] d = omega arith
count-assigned key change (a ∷ rows) d = elim (Bool-cases (a.id == key)) [
  | inl q ↦
      let e : a.id ≡ key = ground arith in
      let s : map (assigned key change) rows ≡ rows =
        assigned-elsewhere key change rows
          (subst (λ k. contains (map (λ a. a.id) rows) k ≡ false) e d.0) in
      rw (q, s) (ground arith)
  | inr q ↦ rw q (ground (arith, count-assigned key change rows d.1))
]

-- It takes none away, if the row is as much of one as before.
pub count-kept :
    (key : ℕ) (change : Admin → Admin) (rows : List Admin)
    → ((a : Admin)
        → In a rows
        → a.id ≡ key
        → is_active_superadmin a ≡ true
        → is_active_superadmin (change a) ≡ true)
    → length (filter is_active_superadmin rows)
      ≤ length (filter is_active_superadmin (map (assigned key change) rows))
count-kept key change [] h = omega arith
count-kept key change (a ∷ rows) h =
    let rest = count-kept key change rows (λ b m. h b (inr m)) in
    elim (Bool-cases (a.id == key)) [
      | inl q ↦ let own = h a (inl refl) (ground arith) in rw q (ground arith)
      | inr q ↦ rw q (ground arith)
    ]

ids-assigned :
    (key : ℕ) (change : Admin → Admin) (rows : List Admin)
    → ((a : Admin) → (change a).id ≡ a.id)
    → map (λ a. a.id) (map (assigned key change) rows) ≡ map (λ a. a.id) rows
ids-assigned key change [] h = refl
ids-assigned key change (a ∷ rows) h = elim (Bool-cases (a.id == key)) [
  | inl q ↦ rw (q, h a, ids-assigned key change rows h) refl
  | inr q ↦ rw (q, ids-assigned key change rows h) refl
]

-- A change of one row that leaves an active superadmin.
pub assign_admin-Staffed :
    (key : ℕ) (change : Admin → Admin) (p : Panel)
    → ((a : Admin) → (change a).id ≡ a.id)
    → 1 ≤ active_superadmins (assign_admin key change p)
    → Staffed p
    → Staffed (assign_admin key change p)
unfolding assign_admin
assign_admin-Staffed key change p h n s = record {
  ids = rw (ids-assigned key change p.admins h) s.ids;
  below = rw (ids-assigned key change p.admins h) s.below;
  staffed = n;
}

superadmin-kept :
    (role : AdminRole) (wanted : Option AdminRole)
    → is_superadmin role ≡ true
    → demotes wanted ≡ false
    → is_superadmin (value_or role wanted) ≡ true
unfolding demotes value_or
superadmin-kept role none h d = h
superadmin-kept role (some r) h d = ground arith

active-kept :
    (is_active : Bool) (wanted : Option Bool)
    → is_active ≡ true
    → deactivates wanted ≡ false
    → value_or is_active wanted ≡ true
unfolding deactivates value_or
active-kept is_active none h d = h
active-kept is_active (some b) h d = ground arith

-- What is not the removal of a superadmin keeps one.
updated-kept :
    (u : Unicode) (payload : AdminUpdateRequest) (password_hash : Option String) (a : Admin)
    → removing_superadmin payload a ≡ false
    → is_active_superadmin a ≡ true
    → is_active_superadmin (updated u payload password_hash a) ≡ true
unfolding removing_superadmin is_active_superadmin updated demotes deactivates value_or
updated-kept u payload password_hash a r s = ground (
  arith,
  superadmin-kept a.role payload.role (ground arith) (ground arith),
  active-kept a.is_active payload.is_active (ground arith) (ground arith),
)

updated-id :
    (u : Unicode) (payload : AdminUpdateRequest) (password_hash : Option String) (a : Admin)
    → (updated u payload password_hash a).id ≡ a.id
unfolding updated
updated-id u payload password_hash a = refl

-- The two ways in which `update_admin` goes on.
pub updated-Staffed :
    (u : Unicode) (payload : AdminUpdateRequest) (password_hash : Option String) (admin : Admin)
    (p : Panel)
    → In admin p.admins
    → (removing_superadmin payload admin && leb (active_superadmins p) 1) ≡ false
    → Staffed p
    → Staffed (assign_admin admin.id (updated u payload password_hash) p)
unfolding active_superadmins assign_admin
updated-Staffed u payload password_hash admin p m g s =
    assign_admin-Staffed admin.id (updated u payload password_hash) p
      (λ a. updated-id u payload password_hash a)
      (elim (Bool-cases (removing_superadmin payload admin)) [
        | inl r ↦
            let two : 2 ≤ length (filter is_active_superadmin p.admins) = ground arith in
            omega
              (arith, two, count-assigned admin.id (updated u payload password_hash) p.admins s.ids)
        | inr r ↦
            let same : (a : Admin) → In a p.admins → a.id ≡ admin.id → a ≡ admin =
              λ a n e. In-unique (λ a. a.id) p.admins a admin s.ids n m e in
            let keeps =
              count-kept admin.id (updated u payload password_hash) p.admins
                (λ a n e q. updated-kept u payload password_hash a (rw (same a n e) r) q) in
            omega (arith, keeps, s.staffed)
      ])
      s
