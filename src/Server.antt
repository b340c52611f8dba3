-- ===== src/Server.antt =====
-- internal/server: the state of a node, the commands of a client and what they do to it.
pub mod Texts
pub mod State
pub mod Session
pub mod Exec
pub mod Handlers
pub mod Connection
pub mod Commands
pub mod Transactions
pub mod Aborts
pub mod Passing
pub mod Serving
pub mod Runs
pub mod Lengths
pub mod Logs
pub mod Queue
pub mod Dispatch
mod Tests
