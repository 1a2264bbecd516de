-- ===== src/Moman.antt =====
-- src/bin/moman/*: the monitor manager. A handler of the event loop is a function on the manager's
-- state; what it starts is in the state's list of pending operations.
pub mod State
pub mod Reply
pub mod Add
pub mod Stop
pub mod Status
pub mod Processes
pub mod Sockets
pub mod Configs
pub mod Watcher
pub mod Start
pub mod Loop
pub mod Invariant
pub mod OneAnswer
pub mod Terminate
pub mod Report
pub mod Reported
pub mod Life
pub mod Outcomes
pub mod StopOutcomes
pub mod Expiry
pub mod Defined
pub mod Joined
pub mod SocketNames
pub mod ConfigPath
pub mod ConfigDue
pub mod ConfigSends
pub mod Watches
