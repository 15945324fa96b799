-- ===== src/Load.antt =====
-- src/shortener/loadtest.py, openloop.py and drills.py: what the measurements count and pick. The
-- requests themselves are arguments.
pub mod Results
pub mod Sweep
pub mod Isolation
pub mod OpenLoop
pub mod Closed
pub mod Compare
pub mod Drills
