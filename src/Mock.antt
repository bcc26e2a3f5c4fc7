-- ===== src/Mock.antt =====
-- mock_server: the stand-in for snapcraft.io under which the service is tested.
pub mod Server
pub mod Splitting
pub mod Finding
