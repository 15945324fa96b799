-- ===== src/Examples.antt =====
-- The theorems at concrete inputs, at which their hypotheses hold.
mod Ids
mod Store
mod Limiter
mod Breaker
mod Delivery
mod Abuse
mod App
mod SingleFlight
mod Postgres
mod Fleet
mod Load
mod Compare
mod Propagation
mod Page
