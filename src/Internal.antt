-- ===== src/Internal.antt =====
-- The replay filter (m_internal): a ring of Bloom filters and the process-wide salt filter.
pub mod Outcome
pub mod Fnv
pub mod Filter
pub mod BloomRing
pub mod SaltFilter
pub mod Toy
mod Runs
