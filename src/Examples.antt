-- ===== src/Examples.antt =====
-- Tests of the modules on concrete inputs, and uses of their theorems there.
mod Clocks
mod Logs
mod Replays
mod Orders
mod Contexts
mod Runs
mod Recordings
mod Endings
mod Handlers
mod Desks
mod Reruns
