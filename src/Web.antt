-- ===== src/Web.antt =====
-- src/local_graph_rag/web: the limits, accounts and checks of the HTTP API.
pub mod RateLimit
pub mod Users
pub mod Middleware
pub mod Security
pub mod Chats
pub mod Login
pub mod Stream
pub mod Capacity
