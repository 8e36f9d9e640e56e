-- ===== src/Native.antt =====
-- The experimental native transport: frames, CALL identity and RESPONSE sequences.
pub mod Values
pub mod Responses
pub mod Calls
pub mod Frames
pub mod Payloads
pub mod Streaming
pub mod Client
pub mod Session
pub mod Server
