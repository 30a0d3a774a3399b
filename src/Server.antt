-- ===== src/Server.antt =====
-- src/server.cpp: the signaling server. `Session` has the state of a thread and its surroundings,
-- `Commands` and `Call` the branches of `client_handler`, `Loop` its loop, `Main` the acceptor.
pub mod Session
pub mod Commands
pub mod Call
pub mod Loop
pub mod System
pub mod Process
pub mod Main
