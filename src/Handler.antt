-- ===== src/Handler.antt =====
-- internal/handler: the HTTP layer.
pub mod Replies
pub mod Proxy
pub mod Forwarding
pub mod Logging
pub mod Probing
pub mod Middleware
pub mod Api
pub mod Server
pub mod Sound
pub mod Phases
