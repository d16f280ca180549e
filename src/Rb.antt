-- ===== src/Rb.antt =====
-- rbtree.c: a red-black tree of `struct rb_node`.
pub mod Defs
pub mod Insert
pub mod Delete
pub mod Find
pub mod Sentinel
pub mod Replace
pub mod Sides
pub mod Rotate
pub mod Preorder
pub mod Steps
pub mod Change
pub mod Colours
pub mod Below
pub mod State
pub mod Dot
pub mod Session
pub mod Main
pub mod Statistics
pub mod Bounds
