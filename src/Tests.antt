-- ===== src/Tests.antt =====
-- The theorems at concrete inputs.
mod Policies
mod Requests
mod Sample
mod Tables
mod Services
mod Deliveries
mod Callbacks
mod Clients
mod Databases
mod Accounts
mod Tokens
mod RateLimits
mod Configs
mod Analyzers
mod Caches
mod ErrorResponses
mod Saved
