-- ===== src/Examples.antt =====
-- A small marketplace, what the services do to it, and the theorems at it.
pub mod Sample
mod Runs
mod Races
mod Flows
mod Life
mod Doors
mod Nearby
mod Uploads
mod People
mod Refunds
