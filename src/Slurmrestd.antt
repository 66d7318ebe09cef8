-- ===== src/Slurmrestd.antt =====
-- slurmweb/slurmrestd/__init__.py: the client of the Slurm REST API.
pub mod Response
pub mod Discovery
pub mod Gres
pub mod Partition
pub mod JobStates
pub mod NodeStates
mod Tests
