-- ===== src/Fcgi.antt =====
-- src/fcgi: requests as the web server passes them on.
pub mod Request
pub mod Server
