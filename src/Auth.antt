-- ===== src/Auth.antt =====
-- src/jwt.rs and src/middleware.rs: tokens, and the layer in front of the services.
pub mod Status
pub mod Jwt
pub mod Header
pub mod Middleware
pub mod Admission
pub mod Opaque
pub mod Layer
