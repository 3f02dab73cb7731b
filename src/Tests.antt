-- ===== src/Tests.antt =====
-- The theorems at concrete inputs: the parameters filled in, and one run for each.
pub mod Instances
pub mod Unary
pub mod Caches
pub mod Flat
pub mod Lookups
pub mod Networks
pub mod Chats
pub mod Keys
pub mod Packets
pub mod Outboxes
pub mod Tables
pub mod Messages
