-- ===== src/Lib.antt =====
-- local-graph-rag: a local retrieval system that keeps a graph of entities beside a vector index.
-- The indexer chunks files, embeds the chunks into Qdrant, has a model extract entities and
-- relationships, and writes them to SQLite; the API routes a question to local or global retrieval
-- and asks the model. This library models that program's own logic and proves what keeps it correct.
--
-- The parts and their files, all paths below src/local_graph_rag of the repository:
--   Prelude, Prelude/*: Boolean tests, lists, texts as lists of code points, and their lemmas.
--   Settings: the values of settings.py that the modelled code reads.
--   Outside: what one run gets from json.loads, ast.parse, the regular-expression engine, the digest
--     of a request and the model. These are parameters, and no theorem assumes anything of them.
--   Ingest/Chunkers, Ingest/Markdown, Ingest/PythonCode: ingest/chunkers.py. merge_from is the loop of
--     _merge_splits, make_room its test with the loop that drops the overlap; sections_from and
--     paragraphs_from are the loops over lines and paragraphs; nodes_from is the loop over the nodes.
--   Ingest/GitHistory: parse_log and render_history of ingest/git_history.py; Ingest/GitHistory/Sync:
--     the rest of that file.
--   Graph/Slug: graph/store_utils.py.
--   Graph/Tables: the schema and the transactions of graph/store.py. A statement is an update that
--     raises if it leaves a dangling reference; a transaction that raises is none, for the rollback.
--   Graph/Records, Graph/Derived, Graph/Deletes, Graph/Reads: graph/record_store.py, one function for
--     each method and each SQL statement. Graph/Integrity states the foreign keys as a predicate.
--   Graph/Neighborhood, Graph/Communities: graph/community_store.py.
--   Graph/Extractor, Ingest/Extraction: graph/extractor.py; the second holds what uses the store.
--   Ingest/World: the state of an indexing run (the database, the points in Qdrant, what the services
--     will do) and a monad of methods that may raise. World/Triple has specifications of methods: a
--     condition for the return and one for the raise.
--   Ingest/Pipeline: ingest/index_documents.py, from one file to the run over all files.
--   Ingest/Files: the walk over the index paths and the stale paths of ingest/index_documents.py.
--   Ingest/Paths: common/paths.py and what the code uses of pathlib.
--   Web/RateLimit, Web/Users, Web/Middleware, Web/Security: web/rate_limit.py, web/user_store.py with
--     web/auth.py, security_middleware of web/middleware.py, and web/security.py.
--   Web/Chats: web/schemas.py. Web/Login: the login, logout and status routes of web/routes.py with
--     password_fits_bcrypt; the accounts may change while bcrypt runs.
--   Web/Stream: the bridge of a streamed answer in web/rag_executor.py, as a step relation: the worker
--     thread (_run, _put), the reader (_stream_queue_events, rag_stream_response) and the watcher move
--     in any order. Web/Capacity: the requests that share the semaphore there.
--   Graph/Summaries, Graph/Summaries/Run: graph/summarizer.py.
--   Rag/Scope, Rag/Local: rag/project_scope.py and rag/local_retrieval.py. What Qdrant answers is a
--     parameter.
--   Rag/Generation: the slot, generate and stream_generate of rag/ollama_client.py.
--   Rag/Embed, Rag/Ollama, Rag/Prompt, Rag/Router: rag/embed.py, post_with_retry of
--     rag/ollama_client.py, the prompts of rag/query_graph_rag.py and rag/query_router.py.
--   Tests: runs of the models on small inputs.
--
-- How the parts meet: the pipeline calls the chunkers, the embedding service, the store and the
-- extractor in the order of _index_file, for the files that Ingest/Files collects. The database it
-- writes is the one that Graph/Neighborhood and Graph/Communities read: Rag/Local and Graph/Summaries
-- call them, and Rag/Prompt formats what a retrieval returns.
--
-- Choices of the model:
--   A file system is what one walk sees of it: directories that cannot be listed, tests of a path that
--     raise. Paths are lists of parts, and `fnmatch` is a parameter.
--   A failing service: each call to SQLite (for writes), Qdrant or the embedding service takes the
--     next entry of a list of faults, and works or raises. A Qdrant call that raises has been applied
--     to some first part of its points. Reads of the database do not raise.
--   The uuids of a run are a function of the chunk number, different from those of the stored points.
--   Subtraction in drop_overlap stops at 0 where the source's is on integers: the length there is
--     always at least what is taken off.
--   lower is exact for results in ASCII, which are all that slugs and comparisons here use.
--   Clocks are whole ticks that do not go back. Weights of edges are whole numbers: each row of the
--     code adds 1.
--   The executor: waits may run out at any time, and every job may end at any time. A put into the queue
--     whose wait runs out is done at that moment or never.
--   generation_slot has fuel, one round more than the timeout has ticks: a round without a slot takes
--     one tick at least.
--   embed_slices has fuel, the number of texts, which each slice shortens by one at least.
--
-- Not modelled: the partition of the graph (networkx), vector arithmetic (numpy, Qdrant), the numbers
-- of a vector, the column embedding of entities and updated_at of fingerprints, the
-- migrations of old databases, the reading of the configuration, HTTP wiring and logging.
pub mod Graph
pub mod Ingest
pub mod Outside
pub mod Prelude
pub mod Rag
pub mod Settings
pub mod Tests
pub mod Web
