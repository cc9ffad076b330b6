-- ===== src/Proxy.antt =====
-- private/P6/starter-code: the proxy server, its priority queue and its request parser.
pub mod Queue
pub mod Request
pub mod Http
pub mod Server
mod Tests
