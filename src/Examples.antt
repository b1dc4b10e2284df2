-- ===== src/Examples.antt =====
-- The theorems at concrete packets, policies and states.
mod Parsing
mod Policies
mod Caching
mod Forwarding
mod Handling
mod Matching
mod Control
mod Posting
mod Runs
mod Starting
mod Entropies
