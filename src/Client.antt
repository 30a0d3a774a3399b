-- ===== src/Client.antt =====
-- src/client.cpp: the client. `State` has its globals, `Requests` what it asks of the server, `Menu`
-- its main loop, `Listener` the thread that serves the server's connection.
pub mod State
pub mod Requests
pub mod Menu
pub mod Listener
pub mod Main
pub mod Process
