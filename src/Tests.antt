-- ===== src/Tests.antt =====
-- The theorems applied to small inputs.
pub mod Lists
pub mod Trees
pub mod Maps
pub mod Programs
pub mod Calculations
pub mod Threads
pub mod Metaprograms
pub mod TypeTheorems
pub mod Machines
pub mod Copies
