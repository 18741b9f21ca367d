-- ===== src/Routing.antt =====
-- Route lookup: minisms/internal/routing, minisms/internal/routecache and sending/route.go.
pub mod Matcher
pub mod Cache
pub mod Lookup
