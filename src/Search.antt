-- ===== src/Search.antt =====
-- Search jobs and their results.
pub mod Jobs
pub mod Content
pub mod Streaming
pub mod Around
pub mod Matches
pub mod Completeness
pub mod Run
pub mod Manager
pub mod Paging
pub mod Names
mod Tests
