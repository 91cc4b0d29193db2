-- ===== src/Examples.antt =====
-- Runs on whole numbers: the theorems applied where their conditions hold, and tests.
mod Setting
mod Grids
mod Swarms
mod Slabs
mod Walls
mod Lifecycle
mod Failures
mod Views
mod Policies
mod Ticks
mod Crew
