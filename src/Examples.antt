-- ===== src/Examples.antt =====
-- Concrete inputs, and the theorems applied to them: a deployment with one job,
-- the workers that run it, and the tables they share.
mod Data
mod Hosts
mod Jobs
mod Keys
mod Live
mod Parts
mod Sides
