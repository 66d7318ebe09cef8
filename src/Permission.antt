-- ===== src/Permission.antt =====
-- slurmweb/permission_rules.py: the rules of the access control, from their text to the answer
-- whether a set of rules allows an operation.
pub mod Rule
pub mod Normal
pub mod Matching
pub mod Grant
pub mod RuleSet
pub mod Sorted
pub mod Legacy
pub mod Seed
pub mod Catalog
mod Tests
