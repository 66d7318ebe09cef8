-- ===== src/Payload.antt =====
-- The normalisation of payloads in slurmweb/slurmrestd/__init__.py, before they are sent.
pub mod Qos
pub mod Entries
pub mod Reservation
pub mod Association
mod Tests
