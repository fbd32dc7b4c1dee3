-- ===== src/Crous.antt =====
-- app/crous/models.py: what the client of the CROUS site returns. Coordinates and surfaces are those
-- of `Models.Housing`; `raw_payload` is left out.
pub mod Parser
pub mod Listings
pub mod Discovery
pub mod Client
pub mod Pages
pub mod Finite
pub mod Catalogue
pub mod Latest
use crous_apartment_monitori.Common.Int.{ℤ}
use crous_apartment_monitori.Common.{ℕ, String, Option}

pub record Bounds : Type 0 where
  pub west : ℤ
  pub north : ℤ
  pub east : ℤ
  pub south : ℤ

pub record CrousListing : Type 0 where
  pub external_id : String
  pub canonical_url : String
  pub title : String
  pub residence_name : Option String
  pub address : Option String
  pub latitude : Option ℤ
  pub longitude : Option ℤ
  pub price_cents : Option ℕ
  pub price_original : Option String
  pub surface_min : Option ℕ
  pub surface_max : Option ℕ
  pub surface_original : Option String
  pub occupancy_type : Option String
  pub bed_information : Option String
  pub sanitary_information : Option String
  pub kitchen_information : Option String
  pub equipment : Option String
  pub primary_image_url : Option String
