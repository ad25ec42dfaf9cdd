-- ===== src/Core/Tests.antt =====
-- Concrete requests: the test data, and the theorems on the engine at inputs that meet their
-- hypotheses. Errors are numbers, and the world is the log of what has run.
mod Data
mod Stages
mod Builds
mod Streams
