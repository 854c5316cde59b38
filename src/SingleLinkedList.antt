-- ===== src/SingleLinkedList.antt =====
-- DataStructures/SingleLinkedList/include/single_linked_list/single_linked_list.hpp.
-- A list object is the address of its `head_` node, an iterator the address of its node (`null`
-- is `end()`), and every pointer assignment is a write to the heap of `Memory`.
pub mod Modifiers
pub mod Operations
pub mod Reverse
pub mod Remove
pub mod Unique
pub mod Bubble
pub mod Sort
pub mod Insert
pub mod Erase
pub mod Resize
pub mod Construction
pub mod Merge
pub mod Transfer
