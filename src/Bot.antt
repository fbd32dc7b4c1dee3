-- ===== src/Bot.antt =====
-- app/bot: the handlers of the Telegram bot as far as they change the tables, and the message with
-- the menu.
pub mod Searches
pub mod Kept
pub mod Placed
pub mod Entered
pub mod Runs
pub mod Navigation
pub mod OneMenu
