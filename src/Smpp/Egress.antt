-- ===== src/Smpp/Egress.antt =====
-- minisms/internal/smpp/egress: the sessions that the program binds at its carriers.
pub mod Group
pub mod Reconnect
