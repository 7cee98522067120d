-- ===== src/Json/Structure.antt =====
-- The encoder's buffer, and the trees of Json/Tree.antt.
pub mod Pieces
pub mod Calling
