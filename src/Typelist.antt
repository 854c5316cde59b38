-- ===== src/Typelist.antt =====
-- Metaprogramming/typelist: templates that compute with lists of types.
pub mod Meta
pub mod Operations
pub mod Algorithms
pub mod Derived
pub mod Interface
pub mod Recursive
pub mod Sorting
pub mod Agreement
pub mod Same
pub mod Folds
pub mod Ends
pub mod Duplicates
pub mod MostDerived
pub mod Laws
pub mod Indices
pub mod Fronted
