-- ===== src/Models/Favourites.antt =====
-- app/db/models.py: favourite listings, their last observation, and the outbox of changes.
use crous_apartment_monitori.Common.{ℕ, String, Bool, Option}

pub data Transition : Type 0 where
  appeared disappeared : Transition

-- The values that the code writes into `favorite_transition_events.status`.
pub data OutboxStatus : Type 0 where
  pending sent : OutboxStatus

pub record HousingFavorite : Type 0 where
  pub id : ℕ
  pub user_id : ℕ
  pub listing_id : ℕ
  pub created_at : ℕ

pub record FavoriteAvailabilityState : Type 0 where
  pub id : ℕ
  pub favorite_id : ℕ
  pub search_id : ℕ
  pub is_available : Bool
  pub transition_sequence : ℕ
  pub observed_at : ℕ

pub record FavoriteTransitionEvent : Type 0 where
  pub id : ℕ
  pub availability_state_id : ℕ
  pub user_id : ℕ
  pub listing_id : ℕ
  pub transition : Transition
  pub transition_sequence : ℕ
  pub status : OutboxStatus
  pub sent_at : Option ℕ
  pub error : Option String
