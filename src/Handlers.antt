-- ===== src/Handlers.antt =====
-- src/handlers: the endpoints of the CometVisu protocol.
pub mod Write
pub mod Login
pub mod Read
