-- ===== src/StateMachines.antt =====
-- State_machines: the same animation as a machine, in several designs.
pub mod Machine
pub mod Naive
pub mod Table
pub mod FirstHack
pub mod Second
pub mod Third
pub mod Fourth
pub mod Tiny
pub mod Static
pub mod Count
pub mod Visited
pub mod Dispatched
pub mod Naively
pub mod Statically
pub mod Ending
pub mod Agreement
pub mod Alternatives
pub mod Tables
