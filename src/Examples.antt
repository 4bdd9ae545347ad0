-- ===== src/Examples.antt =====
-- Tests of the definitions on concrete inputs, and instances of the theorems, by the parts of the program.
pub mod Turns
mod Seams
mod Openings
mod Spawns
mod Workers
mod Clients
mod Servers
mod Runtimes
mod Browsers
mod Profiles
mod Tracks
mod Stores
mod Streams
