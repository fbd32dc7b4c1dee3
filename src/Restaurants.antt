-- ===== src/Restaurants.antt =====
-- app/restaurants, the menus of app/workers/tasks.py, and the buttons of app/bot/handlers/main.py.
pub mod Service
pub mod Deliveries
pub mod Buttons
pub mod Sound
pub mod OncePerDay
pub mod Steps
