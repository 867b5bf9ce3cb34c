-- ===== src/Lib.antt =====
-- The core of the GLM inference server: the continuous-batching scheduler, the step plans and graph
-- profiles that it runs on, and the page table, prefix index, tier journal, page states, memory budget
-- and speculative tail of the cache.
--
-- The parts and their files:
-- - crates/glm-scheduler/src/lib.rs is Scheduler and its children. `Scheduler`, `Request`, `Tenant`
--   and `ScheduledBatch` are the code's structs. Admission holds `new`, `admit_with_prefix`, `cancel`
--   and the cancellations, Order the order of the requests and the depth of a decode, Shape
--   `best_graph` and `finalize_batch`, Batches `build_prefill_batch`, `build_decode_batch` and
--   `next_batch`, and Completion `complete_batch_internal` and its callers. A method that changes the
--   scheduler returns the scheduler that it leaves with its result. Fitting says when a
--   captured graph holds a batch and which graphs are preferred, apart from the code's filter and key.
--   Invariant says what holds between two calls, History takes a scheduler through any calls, Lifetime,
--   Quota and Selection hold what a caller relies on, Readers the methods that only read, and Dispatch
--   follows a selected batch to the plan that runs it.
-- - crates/glm-scheduler/src/compile.rs is Scheduler/Compile: the catalogue of routes and the
--   compiler from a batch and its graph to a step plan with its schedule.
-- - crates/glm-engine/src/graph.rs is Engine/Graph, with the admission of plans in Engine/Admit.
-- - crates/glm-engine/src/step.rs is Engine/Collective for the schedules and Engine/Step for the
--   plans. The modes and the transports stand in Engine/Graph.
-- - crates/glm-cache/src/page.rs, budget.rs and mtp.rs are Cache/Page, Cache/Budget and Cache/Mtp, and
--   tier.rs is Cache/Tier, with the journal, its recovery and the payload of a draft sidecar below it.
-- - crates/glm-cache/src/prefix.rs is Cache/Prefix: `insert` is `insert_pages`, whose first loop plans
--   pages and whose second enters them, and Inserted, Longest and Maximal hold what matches find.
-- - crates/glm-cache/src/sequence.rs is Cache/Sequence: the table of physical pages that active
--   sequences share. Store allocates and releases a page, Quarantine retires pages until a generation
--   is acknowledged, Attach is `admit_with_prefix` and `fork_sequence`, Append is `append_committed`,
--   and Tentative holds the tentative tails and `remove_sequence`. Account follows the identifiers and
--   the references through each of them, History through any calls, with Reuse and Reclaim for the pages
--   in quarantine. Extends, Appended and Rollback follow one sequence, and Readers holds the methods that
--   only read. Every method runs on the table and gives it back; `transact` restores the table where the
--   method fails, as the code's snapshot does.
-- - Base holds what they share: tests on numbers, lists, maps, sorting, and results with checked
--   arithmetic. Examples holds a small deployment, runs of it and instances of the theorems.
--
-- How the code is represented. Words are natural numbers; checked arithmetic fails above the
-- maximum of the word, and what the code adds or subtracts unchecked is written without a bound.
-- Ordered maps are lists of keys and values in ascending order, and the set of pending
-- cancellations is an ascending list. Where the code sorts identifiers and looks their requests up
-- again, the lists hold the requests. The tenant of a request, which the code takes by an index
-- without a test, is read with a default. The loop of `build_decode_batch` is structural in the list
-- of eligible requests. The loop of `append_committed` over the remaining tokens takes those tokens as
-- its fuel, since each round takes at least one. The page table's arrays over the four ranks are
-- functions of the rank, its physical pages a map for each rank, and a digest is the number that its
-- bytes spell. Where the code indexes a map of the page table without a test, the model fails with an
-- error in place of the panic. The snapshot of `commit_tentative` is compared with itself in the
-- code, and not in the model. The two arrays of 64 slots in `complete_batch_internal` are lists of
-- the slots that are filled.
--
-- SHA-256, of the crate sha2, is a function from bytes to bytes that the definitions take as an
-- argument: no theorem assumes anything of it. Not modelled are printing and serialization, the
-- rest of the cache (residency, the store of the tiers, and restores), the workers and device
-- bindings, the file formats, the tokenizer, the HTTP server and the command line, which are input
-- and output, floating point or later work.
pub mod Base
pub mod Engine
pub mod Scheduler
pub mod Cache
mod Examples
