-- ===== src/Replication.antt =====
-- internal/replication: the messages between a leader and its followers.
pub mod Protocol
pub mod Decoder
pub mod RoundTrip
pub mod Leader
pub mod Follower
pub mod Writes
pub mod Stream
mod Tests
