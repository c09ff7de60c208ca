-- ===== src/Lib.antt =====
-- datacrystal is an object database: a store keeps entities in memory, encodes the changed ones at a
-- commit, applies them to a storage backend as one batch, and emits a delta of each commit to the
-- consumers. Who may read and write is decided by labels on the records and levels of the session.
--
-- The parts that are modelled, and the code that each file is about:
--   Base        numbers, lists, dictionaries and integers that all parts share
--   Errors, Exec  exceptions as values, and methods that change an object and may raise
--   Ids         src/datacrystal/_ids.py
--   Permissions src/datacrystal/_permissions.py: levels, ownership, authority, the read predicate
--   Entity      src/datacrystal/_state.py and Store._on_first_write; Entity/Verbs the verbs share,
--               unshare and protect of _permissions.py on an object with that life cycle
--   Registry    Store._resolve_registry_actor and Store.acting_as of src/datacrystal/_store.py over
--               the rows of src/datacrystal/_actors.py
--   Gate        Store._check_write_gate of src/datacrystal/_store.py and its helpers
--   Contract    src/datacrystal/contract/applier.py: the delta map and the reference applier
--   Storage     src/datacrystal/_storage/protocol.py and memory.py
--   Pipeline    build_delta of src/datacrystal/_pipeline.py and Store._read_delta_priors, with the
--               run of a store that emits deltas next to an applier that replays them
--   DeltaLog    src/datacrystal/deltalog.py: Frame the segment files, Defs the log and its flush,
--               Consume its apply and replay, Reopen its constructor; Invariant what it keeps,
--               Reconcile and Crash the reopening, Replay the reading, Append and Flush
--               the writing, History both, and Life
--               all of it with crashes in between
--   Committing  the loop of Store.committing of src/datacrystal/_store.py
--   Session     the commit of src/datacrystal/_store.py over live entities: Live their slots and the state
--               of the Store, Reach and Graph _register_graph and what it calls, Encode _cid_for and
--               _encode_pending, Pending and Capture _p1_capture with its checks, Commit _run_p2,
--               _p2_rollback, _p3_finalize, _deliver and commit, with the writes that may come while P2
--               runs under _commit_unlocked of src/datacrystal/_async.py, Verbs delete, mark_dirty,
--               discard, attach and detach; Columns the columns of an entity that its payload codes,
--               labels included; Walk to Restore what these steps keep, Labelled of the labels; Fuel
--               to Finish the rounds of discovery; Sequence, Typed, Effect, Failure, Stuck and Late
--               the commit as a whole
--   Query       src/datacrystal/_conditions.py and _indexes.py: Condition the tree and its evaluation,
--               ClassIndexes the indexes of a class, Plan the planner; Keys and Bitmap the values and
--               the sets of ids; Postings to Upkeep what insert and remove do to the indexes,
--               Runs the sorted runs, Answers to Compose the planner against the evaluation,
--               Unique and Batch the commit of IndexManager, Window and Search what Store.query of
--               src/datacrystal/_store.py does without an order, Order the order by an indexed field,
--               Reverse the reverse references
--   Tests       runs at concrete inputs
-- A session resolves through Registry to a Principal, the Gate judges its buffered writes with the
-- predicates of Permissions, Session captures what is buffered, Pipeline turns the captured commit into
-- a delta, Storage applies its batch, and Contract replays the deltas. Query keeps the indexes of a class
-- in step with what is committed, and answers conditions from them.
--
-- Numbers: Python's ids and TIDs are natural numbers, levels and uids are integers; neither has a
-- width. A dict is an association list in insertion order. The frame reader of the log has as fuel
-- the number of bytes that it may read; each round takes at least eight of them. The retry loop has as
-- fuel the attempts that it may make, one more than its retries. The walk of _register_graph has as fuel
-- the rounds of its loop, and returns what is left of its queue, which is nothing if there is one round more than the
-- references of the entities that can be reached; what is shown of a commit is shown for every fuel.
-- Parameters: for Session the coding of payloads, the decimal text of a number, the backend, the checks
-- and folds of the index manager and a consumer; pyroaring's BitMap64, the order of the values of a field, the digest sha256, and the
-- msgpack coding of a delta in the log. A payload is a byte string for the pipeline, decoded columns for
-- the gate, and a row of field values for the indexes. Messages of exceptions, threads and locks are not
-- modelled; nor are the index cache, the snapshots, the SQLite backend, the
-- search and columnar consumers, and the web adapters.
pub mod Base
pub mod Errors
pub mod Exec
pub mod Entity
pub mod Gate
pub mod Registry
pub mod Contract
pub mod Storage
pub mod Pipeline
pub mod Ids
pub mod Permissions
pub mod DeltaLog
pub mod Query
pub mod Committing
pub mod Session
pub mod Tests
