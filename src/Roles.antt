-- ===== src/Roles.antt =====
-- The roles of src/identity/roles: what a role inherits, and which roles exclude each other.
pub mod Hierarchy
pub mod Inherited
mod Tests
