-- ===== src/Grant/Depth.antt =====
-- How deep the recursion of `verify_one` goes.
pub mod Hops
pub mod Total
