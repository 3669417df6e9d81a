-- ===== src/Retrieval.antt =====
-- packages/kortex-core/src/kortex_core/retrieval: what a recall keeps, and in which order.
pub mod Packing
pub mod Conflicts
pub mod Hybrid
pub mod Budget
pub mod Plan
pub mod Loop
pub mod Searching
pub mod Reranking
pub mod Recall
pub mod Similar
