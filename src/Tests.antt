-- ===== src/Tests.antt =====
-- Runs of the models on small inputs.
mod Chunks
mod Graph
mod Index
mod Web
mod Rag
mod Summaries
mod Stream
mod Generation
mod Chats
mod Files
mod Local
