-- ===== src/Db.antt =====
-- src/db: the tables of sql/migrations and the statements that the program runs on them.
pub mod Category
pub mod Char
pub mod Tables
pub mod User
pub mod Vote
pub mod Summary
pub mod SnapCategories
pub mod Invariant
pub mod Casting
pub mod ReadBack
pub mod Arrival
pub mod Ballots
pub mod Grouping
pub mod Charting
pub mod Reading
pub mod Rows
pub mod Repetition
pub mod Deletion
