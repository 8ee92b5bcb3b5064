-- ===== src/Graph.antt =====
-- src/local_graph_rag/graph: the SQLite graph store and the entity extraction.
pub mod Slug
pub mod Tables
pub mod Derived
pub mod Records
pub mod Deletes
pub mod Reads
pub mod Integrity
pub mod Extractor
pub mod Frames
pub mod Neighborhood
pub mod Communities
pub mod Summaries
