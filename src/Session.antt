-- ===== src/Session.antt =====
-- The session component: the modules of src/session.
pub mod Model
pub mod Output
pub mod Decoder
