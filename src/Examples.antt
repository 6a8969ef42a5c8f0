-- ===== src/Examples.antt =====
-- The theorems applied to a small policy: two rules on one service, between two networks.
mod Samples
mod Worlds
mod Piping
mod Planning
mod Compiling
mod Deciding
mod Analyzing
mod Enforcing
mod Releasing
mod Hosting
mod Testing
mod Expanding
