-- ===== src/Http.antt =====
-- The HTTP server of httpd/: the files that stand in the namespace http::server.
pub mod Request
pub mod Parser
pub mod Url
pub mod Reply
pub mod Connection
pub mod Mime
pub mod Handler
pub mod Manager
pub mod Server
