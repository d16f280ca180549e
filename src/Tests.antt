-- ===== src/Tests.antt =====
-- The models run on concrete inputs, and the theorems applied there.
mod Bst
mod Rb
mod RbTree
mod Hash
mod Strings
mod Session
mod Input
mod Tally
mod HashMain
mod RbMain
mod BstMain
