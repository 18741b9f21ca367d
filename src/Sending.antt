-- ===== src/Sending.antt =====
-- minisms/internal/sending: the send pipeline.
pub mod Failover
pub mod Transport
pub mod Dispatch
pub mod Store
pub mod Reserve
pub mod Submit
pub mod Queue
pub mod Recovery
