-- ===== src/Admin.antt =====
-- minisms/internal/adminauth: what an administrator may do.
pub mod Permissions
