-- ===== src/Ratings.antt =====
-- src/ratings: the ratings of snaps from their votes, and the charts.
pub mod Float
pub mod FixedPoint
pub mod Band
pub mod Thresholds
pub mod Rating
pub mod Chart
pub mod Sorting
pub mod Ranking
pub mod SnapcraftIo
pub mod Update
pub mod Protocol
