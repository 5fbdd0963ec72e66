-- ===== src/Placement.antt =====
-- internal/placement: eligibility, scoring and selection over authority snapshots.
pub mod Types
pub mod Requirements
pub mod Capacity
pub mod Reasons
pub mod Evaluate
pub mod Conditions
pub mod HostFits
pub mod PartFits
pub mod Eligible
pub mod Overcommit
pub mod Ranking
pub mod Accepted
mod Tests
