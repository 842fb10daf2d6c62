-- ===== src/RbTree.antt =====
-- c/src/rb_tree.h and c/src/rb_tree.c: the red-black tree, over an explicit store of nodes.
pub mod Store
pub mod Rotate
pub mod Insert
pub mod Delete
pub mod Shape
pub mod Trail
pub mod Balance
pub mod Repair
pub mod Link
pub mod Sorted
pub mod Add
pub mod Search
mod Tests
