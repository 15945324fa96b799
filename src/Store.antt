-- ===== src/Store.antt =====
-- src/shortener/store.py: the link table, and the LRU cache in front of it.
pub mod Links
pub mod Lru
pub mod Postgres
pub mod SingleFlight
