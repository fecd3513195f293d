-- ===== src/Tests.antt =====
-- Runs of the code on concrete inputs, and the theorems at such inputs.
mod Fixture
mod Words
mod Instructions
mod Storage
mod Runs
mod Start
mod Encodings
mod Whole
mod Programs
mod Floats
