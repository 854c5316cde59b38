-- ===== src/BinaryTree.antt =====
-- DataStructures/BinaryTree/include/binary_tree/binary_tree.hpp.
pub mod Order
pub mod Tree
pub mod Update
pub mod Assign
pub mod Writes
pub mod Least
pub mod Erase
pub mod Insert
pub mod Duplicates
pub mod Traversal
pub mod Visits
pub mod Iterator
pub mod Iteration
pub mod Backward
pub mod Preorder
pub mod Interface
pub mod Position
