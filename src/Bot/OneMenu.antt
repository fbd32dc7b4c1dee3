-- ===== src/Bot/OneMenu.antt =====
-- app/bot/navigation/manager.py: the buttons of one menu at a time are obeyed.
use crous_apartment_monitori.Bot.Navigation.{
  sent_to, remove_active_navigation, sent_to, Bot, Screen, shown_on, screen_of, render_text_screen,
  is_current_callback, accepts, Conversation, Drawn, nothing, committed, rolled_back,
}
use crous_apartment_monitori.Models.Accounts.{User}
use crous_apartment_monitori.Common.{
  >>-eq-ok, All-map, ==-refl, filter_none, ℕ, suc, ◌≤◌, String, ◌≡◌, refl, ap, ◌≢◌, inl, inr, true,
  false, Option, none, some, List, [], ◌∷◌, arith, opt_is, ok, Bool-cases, length, filter, All,
}

-- Of the screens, the buttons of one are obeyed at most.
abbrev pub AtMostOneMenu : User → List Screen → Type 0
AtMostOneMenu user screens = length (filter (accepts user) screens) ≤ 1

-- No two screens have one message id.
abbrev pub Separate : List Screen → Type 0
Separate [] = Unit
Separate (s ∷ screens) = All (λ r. r.message_id ≢ s.message_id) screens × Separate screens

opt_is-some : (o : Option ℕ) (n : ℕ) → opt_is o n ≡ true → o ≡ some n
opt_is-some none n h = absurd (ground arith)
opt_is-some (some m) n h = ap some (ground arith)

accepts-id :
    (user : User) (s : Screen)
    → accepts user s ≡ true
    → user.active_navigation_message_id ≡ some s.message_id
unfolding accepts is_current_callback
accepts-id user s h = opt_is-some user.active_navigation_message_id s.message_id (ground arith)

accepts-other :
    (user : User) (s r : Screen)
    → user.active_navigation_message_id ≡ some s.message_id
    → r.message_id ≢ s.message_id
    → accepts user r ≡ false
accepts-other user s r e n = elim (Bool-cases (accepts user r)) [
  | inl q ↦ absurd (n (ground (arith, accepts-id user r q)))
  | inr q ↦ q
]

others-none :
    (user : User) (s : Screen) (screens : List Screen)
    → user.active_navigation_message_id ≡ some s.message_id
    → All (λ r. r.message_id ≢ s.message_id) screens
    → filter (accepts user) screens ≡ []
others-none user s screens e a = filter_none (accepts user) screens (
    All-map (λ r. r.message_id ≢ s.message_id) (λ r. accepts user r ≡ false) screens
      (λ r n. accepts-other user s r e n) a)

one-menu : (user : User) (screens : List Screen) → Separate screens → AtMostOneMenu user screens
one-menu user [] h = omega arith
one-menu user (s ∷ screens) h = elim (Bool-cases (accepts user s)) [
  | inl q ↦ let e = others-none user s screens (accepts-id user s q) h.0 in ground arith
  | inr q ↦ ground (arith, one-menu user screens h.1)
]

Drawn-Separate :
    {bot : Bot} {b c : Conversation} → Separate b.screens → Drawn bot b c → Separate c.screens
Drawn-Separate h nothing = h
Drawn-Separate h (committed text name d q f) = (f, Drawn-Separate h d)
Drawn-Separate h (rolled_back text name d q f) = (f, Drawn-Separate h d)

shown_on-accepts : (user : User) (s : Screen) → accepts (shown_on user s) s ≡ true
unfolding accepts shown_on is_current_callback
shown_on-accepts user s = ground (arith, ==-refl s.version, ==-refl s.chat_id, ==-refl s.message_id)

sent_to-version :
    (user : User) (name : String) (place : Option (ℕ × ℕ)) {s : Screen}
    → sent_to user name place ≡ ok s
    → s.version ≡ suc user.active_navigation_version
unfolding sent_to screen_of
sent_to-version user name none q = absurd (ground arith)
sent_to-version user name (some place) q = ground arith

-- The version of a screen is the next one of the user.
render_text_screen-version :
    (bot : Bot) (user : User) (text name : String) {s : Screen}
    → render_text_screen bot user text name ≡ ok s
    → s.version ≡ suc user.active_navigation_version
unfolding render_text_screen
render_text_screen-version bot user text name {s} q =
    sent_to-version user name (bot.send_message user.telegram_chat_id text) (
      >>-eq-ok (remove_active_navigation bot user)
        (sent_to user name (bot.send_message user.telegram_chat_id text)) q)

stale :
    (user : User) (s : Screen)
    → s.version ≡ suc user.active_navigation_version
    → accepts user s ≡ false
unfolding accepts is_current_callback
stale user s e = ground arith

-- After any conversation, and a screen that is drawn next under an id that Telegram has not used: if
-- the transaction is committed, the buttons of this screen are obeyed and those of no other; if it
-- is rolled back, the buttons of this screen are not obeyed, and those of one other at most.
pub render_text_screen-obeyed :
    {bot : Bot} {b c : Conversation} {s : Screen} (text name : String)
    → Separate b.screens
    → Drawn bot b c
    → render_text_screen bot c.user text name ≡ ok s
    → All (λ r. r.message_id ≢ s.message_id) c.screens
    → (filter (accepts (shown_on c.user s)) (s ∷ c.screens) ≡ s ∷ [])
      × ((accepts c.user s ≡ false) × AtMostOneMenu c.user (s ∷ c.screens))
unfolding shown_on
render_text_screen-obeyed {bot} {b} {c} {s} text name h d q f = (
  rw (shown_on-accepts c.user s, others-none (shown_on c.user s) s c.screens refl f) refl,
  (
    stale c.user s (render_text_screen-version bot c.user text name q),
    one-menu c.user (s ∷ c.screens) (f, Drawn-Separate h d),
  ),
)
