-- ===== src/Examples.antt =====
-- The theorems at concrete inputs: a Redis and a MongoDB that are lists, and small clusters.
mod Stores
mod Queueing
mod Balancing
mod Claiming
mod Electing
mod Gossiping
mod Entering
mod Collections
mod Serving
mod Refining
mod Listing
mod Starting
mod Draining
mod Running
mod Voting
mod Sharing
mod Measuring
mod Programs
