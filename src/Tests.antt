-- ===== src/Tests.antt =====
-- Runs of the definitions at concrete inputs, and the theorems at concrete inputs.
mod Threading
mod Battles
mod Commands
mod Bookings
mod Movies
mod Machines
mod Orbits
mod Inputs
mod StatusTable
mod Players
mod ReadLoop
mod WriteLoop
