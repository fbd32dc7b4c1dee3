-- ===== src/Searches.antt =====
-- app/searches: the area and the filters of a saved search.
pub mod Filters
pub mod Area
pub mod Wanted
pub mod Located
pub mod Ranges
pub mod Parsed
