-- ===== src/Adapters.antt =====
-- slurmweb/slurmrestd/adapters: what each adapter makes of the answers of an API version, and the chain
-- of adapters from one version to another. `none` is an exception of the adapter.
pub mod Fields
pub mod Number
pub mod Exit
pub mod V39
pub mod V40
pub mod V41
pub mod V42
pub mod Chain
pub mod Laws
pub mod Succession
pub mod Times
mod Tests
