-- ===== src/Models/Housing.antt =====
-- app/db/models.py: saved searches, listings and the messages that show them. Coordinates are
-- integers of a fixed fraction of a degree, surfaces naturals of a fixed fraction of a square metre:
-- the code only compares and subtracts them.
use crous_apartment_monitori.Common.{ℕ, String, Bool, Option}
use crous_apartment_monitori.Common.Int.{ℤ}

-- The life of a display group.
pub data GroupStatus : Type 0 where
  pending active retiring retired failed : GroupStatus

pub data MessageKind : Type 0 where
  card empty : MessageKind

pub record Search : Type 0 where
  pub id : ℕ
  pub user_id : ℕ
  pub name : Option String
  pub location_display_name : String
  pub city : Option String
  pub postal_code : Option String
  pub country_code : Option String
  pub center_latitude : ℤ
  pub center_longitude : ℤ
  pub radius_km : Option ℕ
  pub bounds_west : ℤ
  pub bounds_north : ℤ
  pub bounds_east : ℤ
  pub bounds_south : ℤ
  pub last_checked_at : Option ℕ
  pub last_success_at : Option ℕ
  pub last_changed_at : Option ℕ
  pub snapshot_fingerprint : Option String
  pub consecutive_errors : ℕ
  pub is_active : Bool
  pub price_min_cents : Option ℕ
  pub price_max_cents : Option ℕ
  pub surface_min_m2 : Option ℕ
  pub surface_max_m2 : Option ℕ
  pub accommodation_format : Option String

pub record SearchDisplayGroup : Type 0 where
  pub id : ℕ
  pub search_id : ℕ
  pub telegram_chat_id : ℕ
  pub fingerprint : String
  pub status : GroupStatus
  pub listing_count : ℕ
  pub activated_at : Option ℕ
  pub retired_at : Option ℕ

pub record SearchDisplayMessage : Type 0 where
  pub id : ℕ
  pub display_group_id : ℕ
  pub telegram_message_id : ℕ
  pub message_kind : MessageKind

pub record Listing : Type 0 where
  pub id : ℕ
  pub source : String
  pub external_id : String
  pub canonical_url : String
  pub title : String
  pub residence_name : Option String
  pub accommodation_type : Option String
  pub occupancy_type : Option String
  pub city : Option String
  pub postal_code : Option String
  pub address : Option String
  pub latitude : Option ℤ
  pub longitude : Option ℤ
  pub price_original : Option String
  pub price_cents : Option ℕ
  pub surface_original : Option String
  pub surface_min : Option ℕ
  pub surface_max : Option ℕ
  pub bed_information : Option String
  pub sanitary_information : Option String
  pub kitchen_information : Option String
  pub equipment : Option String
  pub availability_text : Option String
  pub short_description : Option String
  pub primary_image_url : Option String
  pub first_seen_at : ℕ
  pub last_seen_at : ℕ

pub record SearchListing : Type 0 where
  pub search_id : ℕ
  pub listing_id : ℕ
  pub first_seen_at : ℕ
  pub last_seen_at : ℕ
  pub disappeared_at : Option ℕ
  pub reappeared_at : Option ℕ
  pub is_currently_available : Bool
  pub notification_count : ℕ
  pub last_notification_at : Option ℕ
