-- ===== src/Metrics/Dispatched.antt =====
-- What dispatch_entries does to the files under one name.
pub mod Linking
mod Loops
pub mod Complete
