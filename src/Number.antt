-- ===== src/Number.antt =====
-- Algorithm/Number Theory and the trial divisions of Algorithm/Prime.
pub mod Gcd
pub mod Power
pub mod Prime
pub mod Sieve
pub mod Trial
