-- ===== src/OutputIterators.antt =====
-- Metaprogramming/output_iterators: iterators that write to other iterators.
pub mod Tuple
pub mod Iterators
pub mod Filtering
pub mod Splitting
