-- ===== src/Abuse.antt =====
-- src/shortener/abuse.py: which destinations are refused, and codes that are withdrawn.
pub mod Host
pub mod Page
pub mod Policy
pub mod Takedown
