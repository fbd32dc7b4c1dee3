-- ===== src/Bot/Navigation.antt =====
-- app/bot/navigation/manager.py: the one message with a menu. Telegram's answers are the arguments
-- `Bot`, and the messages that were sent are kept, in order, whatever becomes of the transaction.
use crous_apartment_monitori.Models.Accounts.{User}
use crous_apartment_monitori.Common.{
  ℕ, suc, String, ◌≡◌, ◌≢◌, Bool, ◌&&◌, Option, none, some, List, ◌∷◌, ◌==◌, opt_is, Result, ok,
  err, ◌>>◌, All,
}

-- What `bot.delete_message` does: it returns or raises TelegramBadRequest, or it raises another
-- error.
pub data Removal : Type 0 where
  tolerated raised : Removal

-- `send_message` returns the chat and the id of the new message, or raises.
pub record Bot : Type 0 where
  pub delete_message : ℕ → ℕ → Removal
  pub send_message : Option ℕ → String → Option (ℕ × ℕ)

-- A message with a menu; each of its buttons carries the version that the screen was drawn for.
pub record Screen : Type 0 where
  pub chat_id : ℕ
  pub message_id : ℕ
  pub version : ℕ
  pub name : String

pub data TelegramError : Type 0 where
  telegram_error : TelegramError

unfoldable pub deletion : Bot → Option ℕ → Option ℕ → Result TelegramError (Unit {0})
deletion bot (some chat_id) (some message_id) = elim (bot.delete_message chat_id message_id) [
  | tolerated ↦ ok tt
  | raised ↦ err telegram_error
]
deletion bot chat_id message_id = ok tt

-- An id of 0 counts as none, and Telegram gives none.
unfoldable pub remove_active_navigation : Bot → User → Result TelegramError (Unit {0})
remove_active_navigation bot user =
    deletion bot user.active_navigation_chat_id user.active_navigation_message_id

unfoldable pub shown_on : User → Screen → User
shown_on user s = record user {
  active_navigation_chat_id = some s.chat_id;
  active_navigation_message_id = some s.message_id;
  active_navigation_screen = some s.name;
  active_navigation_version = s.version;
}

unfoldable pub screen_of : User → String → ℕ × ℕ → Screen
screen_of user name (chat_id, message_id) = record {
  chat_id = chat_id;
  message_id = message_id;
  version = suc user.active_navigation_version;
  name = name;
}

unfoldable pub sent_to : User → String → Option (ℕ × ℕ) → Result TelegramError Screen
sent_to user name none = err telegram_error
sent_to user name (some place) = ok (screen_of user name place)

-- The screen that is sent, for which the caller draws the buttons with the next version; the row of
-- the user is set to it by `shown_on`.
unfoldable pub render_text_screen : Bot → User → String → String → Result TelegramError Screen
render_text_screen bot user text name = do
  remove_active_navigation bot user
  sent_to user name (bot.send_message user.telegram_chat_id text)

unfoldable pub close_active_navigation : Bot → User → Result TelegramError User
close_active_navigation bot user = do
  remove_active_navigation bot user
  ok (record user { active_navigation_message_id = none; active_navigation_chat_id = none })

unfoldable pub is_current_callback : User → ℕ → ℕ → ℕ → Bool
is_current_callback user chat_id message_id version =
    opt_is user.active_navigation_chat_id chat_id
    && opt_is user.active_navigation_message_id message_id
    && user.active_navigation_version == version

-- A button of a screen.
unfoldable pub accepts : User → Screen → Bool
accepts user s = is_current_callback user s.chat_id s.message_id s.version

-- The row of the user and the screens that were sent, the last one first.
pub record Conversation : Type 0 where
  pub user : User
  pub screens : List Screen

-- A handler draws a screen; its transaction is committed, or rolled back after the message was sent.
-- Telegram does not use an id of a chat again.
pub data Drawn (bot : Bot) : Conversation → Conversation → Type 0 where
  nothing : {c : Conversation} → Drawn bot c c
  committed :
      {b c : Conversation} {s : Screen} (text name : String)
      → Drawn bot b c
      → render_text_screen bot c.user text name ≡ ok s
      → All (λ r. r.message_id ≢ s.message_id) c.screens
      → Drawn bot b (record { user = shown_on c.user s; screens = s ∷ c.screens })
  rolled_back :
      {b c : Conversation} {s : Screen} (text name : String)
      → Drawn bot b c
      → render_text_screen bot c.user text name ≡ ok s
      → All (λ r. r.message_id ≢ s.message_id) c.screens
      → Drawn bot b (record { user = c.user; screens = s ∷ c.screens })
