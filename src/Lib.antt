-- ===== src/Lib.antt =====
-- Rongo answers questions about source code. A poller keeps an index of every repository current,
-- the indexer cuts files into chunks, the retriever ranks chunks for a question, and the answer
-- streams to the reader with numbered citations. This library models the core of those parts, with
-- the retry of the calls of the model and the admission of requests, and proves what makes each of
-- them correct.
--
-- The parts and their files. The poller asks git and the index pipeline, and writes rows of
-- repo_state; the pipeline calls the selector, the chunker and the writer, whose tables hold the
-- index; the retriever merges the ranked lists of its lanes over the chunks; the gathering adds what
-- their code refers to; the renumberer stands between the model and the reader.
--
--  - Prelude: the libraries' names, Boolean tests, lists over the native numbers, Go's strings as
--    lists of code points with what the code uses of strings, unicode and path, the stable sort.
--  - Indexer.Chunk: backend/internal/indexer/chunk.go. chunk_file is ChunkFile, windows and
--    split_overlong_line are windows and splitOverlongLine, symbol_regions, anchor_symbols, doc_start
--    and contains are the functions of those names, content_key is what contentHash hashes.
--  - Indexer.Select: backend/internal/indexer/select.go. select_path, select_size, select_body and
--    select_by_path are the methods of those names, match_segments is matchSegments; a verdict that
--    is not decided is none. A body is the list of its bytes.
--  - Indexer.State: the statements of backend/internal/indexer/state.go on one row. A row is a
--    record, a statement is a constructor of Write, and apply is what it sets.
--  - Indexer.Poller: backend/internal/indexer/poller.go. poll_repo is pollRepo, poll_snapshot is
--    pollSnapshot, index_and_mark, changed_since, reset_if_lost and honour_reindex are the functions
--    of those names, poll_writes is what PollOnce writes for one repository, the warning of empty stages included. A poll returns its
--    result and its list of statements; Steps puts requests for a re-index between any two of them.
--  - Retrieve.Edit: withinOneEdit of backend/internal/retrieve/retrieve.go.
--  - Retrieve.Paths: backend/internal/retrieve/testpath.go and docpath.go.
--  - Retrieve.Hits, Retrieve.Fuse: backend/internal/retrieve/hybrid.go. fuse_weighted_decayed is
--    FuseWeightedDecayed, diversify_by_repo is diversifyByRepo.
--  - Retrieve.Rerank: RerankByModule of backend/internal/retrieve/rerank.go; Standings says its maps
--    by the hits of a module.
--  - Indexer.Write: backend/internal/indexer/write.go. A table is the list of its rows, a transaction a
--    function of the tables: replace_file, record_skipped, delete_file and delete_files_not_in are the
--    Writer's methods, Indexer.Write.View.view what the tables say of a path; Limits is what the constraints go by
--    beside the rows. An index is in
--    step when the three tables of chunks have the same rows and no id and no path stands twice.
--  - Indexer.Pipeline: backend/internal/indexer/index.go. index_repo is IndexRepo, index_one is indexOne,
--    vectors and sweep the functions of those names; Indexer.Pipeline.Plan.wanted says what a run is to
--    leave of a path, without the tables.
--  - Auth: backend/internal/auth. middleware is Middleware, for one request; admit, upsert_user,
--    login_password and admit_claims are the methods of Service, which carries the table of users; Meanwhile is what can come between two requests of a caller; what the package kit answers is Kit.
--  - Ask.Gather: backend/internal/ask/gather.go. gather_seeded is GatherSeeded, admit is the admitter's
--    take, symbol_hops, cross_all and land_later are its loops; what the database answers is Reads.
--  - Ask.Markers, Ask.Rewriting, Ask.Renumber: backend/internal/ask/renumber.go. decide is the loop of
--    that name, one round of it is turn, feed and flush are the methods, stream is a whole answer.
--  - Llm.Retry: backend/internal/llm/retry.go. retriable, retry_wait, worth_another and attempted are
--    the functions of those names, for one call; Transient says which failures are worth another. Llm.Retry.Turn
--    runs the calls of a turn beside one another.
--
-- Bounds and fuel. Line numbers, sizes and ids are natural numbers; Go's int is 64 bits wide and none
-- of them comes near its end. Where the source loops, the model counts rounds: windows has as many as
-- lines, split_overlong_line as many as runes, diversify_by_repo as many as hits, decide as many as
-- characters. Each round of these loops moves on by one at least, which the lemmas of the part prove.
--
-- Parameters. The hash, ctags, git, the index pipeline as the poller calls it, the speller, the
-- embedding service and its cache, the runes of a body, the readers of BPMN and XSD, the extraction of tokens, the queries
-- of the gathering, the package kit, the package redact, path.Match on one segment and the arithmetic of float64 are arguments of the definitions that use them.
--
-- Not modelled. Logs, timers, the cancelled context outside the index pipeline, statements of SQL
-- that fail outside the gathering and the admission of requests, and every package
-- that is HTTP, SQL or a prompt: the components of the manifest say which. Strings are valid UTF-8.
pub mod Prelude
pub mod Indexer
pub mod Retrieve
pub mod Ask
pub mod Llm
pub mod Auth
