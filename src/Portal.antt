-- ===== src/Portal.antt =====
-- document-portal/: the portal through which applications share documents.
pub mod Flags
pub mod Documents
pub mod Fuse
pub mod Tree
pub mod Methods
pub mod Add
mod Tests
