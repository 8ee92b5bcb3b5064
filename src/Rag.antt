-- ===== src/Rag.antt =====
-- src/local_graph_rag/rag: requests to the model, embeddings, and the prompt of an answer.
pub mod Embed
pub mod Ollama
pub mod Prompt
pub mod Router
pub mod Generation
pub mod Scope
pub mod Local
