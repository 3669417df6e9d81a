-- ===== src/Lib.antt =====
-- kortex-memory: a store of memories for agents, with tenancy, review, an audit log and recall.
--
-- The paths are those of packages/kortex-core/src/kortex_core. A request builds one service of
-- services/ on a session of the database and a principal; the service asks services/access_control.py
-- and the policies of skills/, reads and writes rows through repositories/, whose queries are filtered
-- by the org of the principal, and logs what it did through repositories/audit_repo.py.
--
--   Prelude     Boolean tests, lists measured by native numbers, texts as lists of code points, and the
--               two stable sorts.
--   Types       the enumerations of db/types.py.
--   Access      security/principal.py and services/access_control.py. `effective_role` is
--               `AccessControl.role_for`.
--   Policies    skills/trust_policy.py, skills/review_policy.py, embeddings/retry.py,
--               security/plan_limits.py, and `_sensitivities_up_to` of repositories/memory_repo.py.
--   Audit       repositories/audit_repo.py. The table is the list of the entries in the order of their
--               ids. `Verify` holds `verify`, whose fuel is the length of the table and one more: each
--               page but the last has at least one entry.
--   Dedup       dedup.py.
--   Pii         skills/pii_detector.py: the checks (Checksums; its Meaning says what they find out), the
--               default detector (Scanning), and the overlaps, the redaction and the summary.
--   Memories    models/memory.py, the filter of repositories/base.py, and repositories/memory_repo.py:
--               its reads (Queries), its writes (Writes) and the queue of embeddings (Embedding).
--   Service     services/memory_service.py. A method is a function from a state to a result and a state
--               (Exec); State holds the session and the caches of the instance; Governance and Write are
--               the steps of `write`, Methods the other methods (`list_memories` is `list_`,
--               `delete_memory` is `delete`, `pin_memory` is `set_pinned`, `touch` is `record_access`),
--               Links the links between memories (the rows of repositories/memory_link_repo.py are in
--               Memories.Links), and Requests puts the writing methods in a sequence of calls.
--   Tool        memory_tool.py, Claude's memory tool over one scope: `normalise_path` and posixpath's
--               `normpath` (Paths), the lines of a file (Lines), and the commands (Viewing, Creating,
--               Editing, Commands), each a function from the state of the service to a reply and a state;
--               Rendering gives the texts of the replies. The number itself is enough fuel for its
--               decimal digits.
--   Decay       skills/decay_policy.py, the tick of kortex-worker's tasks/decay.py, and the median of
--               repositories/memory_repo.py, for which the answer of Postgres is a parameter.
--   Chunker     attachments/chunker.py; the length of a sentence is enough fuel for its pieces, each of
--               which has a character at least.
--   Retrieval   retrieval/token_budget.py (Packing), retrieval/conflicts.py (Conflicts), `hybrid_search`
--               of repositories/memory_repo.py with `rrf_fuse` and retrieval/text_search.py (Hybrid),
--               services/retrieval_service.py (Searching), retrieval/budget.py (Budget),
--               retrieval/query_plan.py (Plan), retrieval/agent_loop.py (Loop),
--               retrieval/reranker_pipeline.py (Reranking), services/agentic_retriever.py (Recall), and
--               `find_similar_for_review` of repositories/memory_repo.py (Similar).
--
-- A row that a service loads is changed in place by the session; here the changed row is written back
-- under its primary key (`flush`). What was written before an exception stays in the state; to roll it
-- back is the caller's job. A float stands as the natural number of its place in the order of floats,
-- and arithmetic on floats is a parameter. Times are numbers, and the public id of a row is the number
-- that it was drawn for.
--
-- Parameters: SHA-256, Unicode's tables and normalisation, the regular expressions of the detectors, the embedder,
-- Python's `repr` and its `int` of a text, the order in which it lists a set, the clock.
-- Not modelled: what Postgres computes (vector distances, text ranks, aggregates), Redis, HTTP clients,
-- language models, and the layers above the services (kortex-api, kortex-mcp, the other tasks of
-- kortex-worker, the SDKs).
pub mod Prelude
pub mod Types
pub mod Access
pub mod Policies
pub mod Audit
pub mod Dedup
pub mod Memories
pub mod Pii
pub mod Service
pub mod Retrieval
pub mod Chunker
pub mod Tool
pub mod Decay
