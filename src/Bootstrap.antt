-- ===== src/Bootstrap.antt =====
-- internal/bootstrap: what starting and stopping the program works on. A pool, a connection and a
-- client are handles, numbered in the order in which they are made.
pub mod Process
pub mod Database
pub mod Start
pub mod Run
