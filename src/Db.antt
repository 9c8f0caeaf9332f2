-- ===== src/Db.antt =====
-- lib/xdg-app-db.c: the database of permissions.
pub mod Strings
pub mod Entry
pub mod State
pub mod Queries
pub mod Update
pub mod Save
pub mod Print
pub mod Index
pub mod Tests
