-- ===== src/Sparse.antt =====
-- lib/rtecs/include/rtecs/sparse: the storage of components.
pub mod Pages
pub mod Dense
pub mod Links
pub mod Set
pub mod Contents
pub mod Removal
pub mod Refines
pub mod View
pub mod Erase
pub mod Group
pub mod Has
pub mod Views
pub mod Filled
pub mod Members
