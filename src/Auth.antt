-- ===== src/Auth.antt =====
-- packages/auth and the request gate of apps/web: who may call the node endpoints.
pub mod Envelope
pub mod ReplayCache
pub mod Gate
pub mod Sign
mod Places
mod Validity
mod Retention
mod Replay
mod RoundTrip
mod Examples
