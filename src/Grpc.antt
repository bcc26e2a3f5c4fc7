-- ===== src/Grpc.antt =====
-- src/grpc: the services.
pub mod Routes
pub mod Access
pub mod World
pub mod Task
pub mod Pool
pub mod App
pub mod User
pub mod Charts
pub mod Keeping
pub mod ChartRequests
pub mod Voting
pub mod Arriving
pub mod RatingRequests
pub mod Requests
pub mod Client
pub mod Calls
pub mod Naming
pub mod Shown
pub mod Updating
pub mod SnapVotes
pub mod Dispatch
pub mod Ownership
pub mod Arrivals
pub mod Summaries
