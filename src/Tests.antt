-- ===== src/Tests.antt =====
-- Runs of the model on small inputs, and the theorems at concrete inputs.
mod Grids
mod Octrees
mod Tuners
mod Machines
mod Programs
mod Choices
mod Particles
mod BaseSteps
mod Containers
