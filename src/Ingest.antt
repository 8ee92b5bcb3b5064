-- ===== src/Ingest.antt =====
-- src/local_graph_rag/ingest: chunking, the git history, and the indexing pipeline.
pub mod Chunkers
pub mod Markdown
pub mod PythonCode
pub mod World
pub mod GitHistory
pub mod Extraction
pub mod Pipeline
pub mod Paths
pub mod Files
