-- ===== src/Ids.antt =====
-- src/shortener/ids.py: base62, the two code generators and the allocator that retries.
pub mod Base62
pub mod Snowflake
pub mod RandomCode
pub mod Allocator
