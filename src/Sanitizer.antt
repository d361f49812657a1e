-- ===== src/Sanitizer.antt =====
-- apps/web/lib/sanitize-stream.js, which takes leaked tags out of streams of tokens.
pub mod Tags
pub mod Stream
mod Rests
mod Loop
mod Examples
