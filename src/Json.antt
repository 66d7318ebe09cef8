-- ===== src/Json.antt =====
-- JSON values as Python has them after parsing: what slurmweb/slurmrestd looks at and builds.
pub mod Value
pub mod Path
