-- ===== src/Examples.antt =====
-- Sample rows, runs of the operations on them, and the theorems applied to them.
mod Samples
mod Uploads
mod Rounds
mod Visions
mod Plates
mod Usage
mod Ranges
mod Fields
mod Watched
mod Solving
mod Health
