-- ===== src/Witness.antt =====
-- Concrete inputs at which the theorems apply.
mod Saves
mod Blocks
mod Flights
mod Nodes
mod Caches
mod Listings
mod Remotes
mod Files
mod Marks
mod Commands
