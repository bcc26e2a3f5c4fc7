-- ===== src/Startup.antt =====
-- How the service starts: src/main.rs, with src/config.rs, src/context.rs, the pool of src/db/mod.rs and
-- `run_server` of src/grpc/mod.rs. What starting up asks of the system and of other libraries is a
-- record of answers; that `Config::load` is called twice and answered twice alike is the one thing
-- that it fixes.
pub mod Settings
pub mod Pool
pub mod Server
pub mod Refusal
pub mod Tls
pub mod Order
pub mod Port
