-- ===== src/Proto.antt =====
-- src/proto: the enums of the generated code.
pub mod Arms
pub mod Category
pub mod Timeframe
pub mod Band
