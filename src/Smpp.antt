-- ===== src/Smpp.antt =====
-- The SMPP sides of the program: minisms/internal/smpp.
pub mod Throttle
pub mod Sessions
pub mod Cidr
pub mod Bind
pub mod Decode
pub mod Ingress
pub mod Conn
pub mod Deliver
pub mod Egress
pub mod EventLog
