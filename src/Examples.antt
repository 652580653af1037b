-- ===== src/Examples.antt =====
-- Runs of the definitions on small inputs, and the theorems at those inputs.
mod Shards
mod Evaluations
mod Deployments
mod Rollouts
mod Loads
mod Normals
mod Polls
mod Events
mod Pipelines
