-- ===== src/Cache.antt =====
-- slurmweb/cache.py: the caching service over a Redis server, and the reads and writes of
-- `SlurmrestdFilteredCached` (slurmweb/slurmrestd/__init__.py) that go through it.
pub mod Redis
pub mod Service
pub mod Keys
pub mod Cached
pub mod Distinct
pub mod Coherence
pub mod Fresh
pub mod Affects
pub mod Writes
mod Tests
