-- ===== src/Usage.antt =====
-- Token usage: server/src/core/usage.py, server/src/application/services/usage.py.
pub mod Meter
pub mod Scopes
pub mod Counts
pub mod Tally
pub mod Silent
pub mod Refused
pub mod Checks
pub mod Inside
pub mod Cap
pub mod Buckets
pub mod Service
pub mod Effects
pub mod Limits
pub mod Rates
pub mod Changes
pub mod Reports
pub mod Days
