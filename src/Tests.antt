-- ===== src/Tests.antt =====
-- The theorems at concrete objects and tables.
mod Args
mod Locks
mod Tables
mod Methods
mod Full
mod Singles
mod Doubles
