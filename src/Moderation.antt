-- ===== src/Moderation.antt =====
-- internal/moderation: policies, provider output, and the moderation service.
pub mod Types
pub mod Policy
pub mod PolicySet
pub mod Parser
pub mod Validate
pub mod Filters
pub mod Service
pub mod Repository
pub mod Outputs
pub mod Delivery
pub mod Retry
pub mod Review
pub mod Queries
pub mod Check
