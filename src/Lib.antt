-- ===== src/Lib.antt =====
-- A model of the transaction processing of Pangu, a blockchain node that runs the transactions of a
-- block in parallel groups and repeats those that turn out to conflict in a serial queue.
--
-- The parts and the files that model them:
--   * Prelude: the shared helpers: numbers, Boolean tests, options, lists, maps and integers.
--   * Avl: core/txpool/legacypool/avl.go, the AVL tree that holds the costs of a sender's transactions
--     by nonce, with their sums. A pointer to a node is a value, since no two trees share a node.
--   * Noncer: core/txpool/legacypool/noncer.go, the nonces of the pool over those of the state.
--   * TxList: core/txpool/legacypool/list.go, the transactions of one account with their total cost
--     (adding, filtering and removing, taking the first ones, TxList/Ready, and the last ones,
--     TxList/Cap), and that every change keeps its total, its nonces and their heap (TxList/Sound).
--   * Validation: core/txpool/validation.go, with the options that
--     core/txpool/legacypool/legacypool.go gives, and what it promises of the lists (Accepted).
--   * Lookup: the `lookup` of core/txpool/legacypool/legacypool.go, all transactions by hash.
--   * Pool: the `LegacyPool` of core/txpool/legacypool/legacypool.go: `enqueueTx`, `promoteTx` and
--     `removeTx` (Pool), `add`, `addTxsLocked` and `addTxs` (Add), `promoteExecutables` and
--     `demoteUnexecutables` (Reorg), `Status` and runs of calls (Run). Places says where a transaction
--     is, Moves how it changes place, Valid is the invariant of the pool; Taken, Keep and Listed read
--     the lists and the lookup in these terms, Flight, Remove and Enter are the steps on the pool.
--   * AccessList: accesslist/accessList.go, the addresses and slots that a transaction touches, with the
--     detection of conflicts (Conflict), and the part of core/state/statedb.go and core/state/journal.go
--     that fills and rolls back the list (Journal).
--   * StateObject, StateDb: core/state/state_object.go, core/state/statedb.go and core/state/journal.go: an
--     account in memory over a database, the operations that the journal records, and the journal with
--     `Snapshot` and `RevertToSnapshot` (StateDb/Journal), what can be read of a state (Similar, Reads),
--     runs of the operations with frames among them (Program, Revert), `Finalise`, and how World
--     follows it (Refine).
--   * World: the accounts of core/state/statedb.go that an execution reads and writes.
--   * Evm: `Call` and `create` of core/evm/evm.go and the transfers of core/pvm.go.
--   * Transition: core/transition.go, one transaction from `PreCheck` to the refund.
--   * Message: `TransactionToMessage` and `SortSerialTX` of core/process_types.go.
--   * Thread: core/process.go, `ExecuteTx`, `TxThread`, and `Process` (Thread/Process); Calm says when
--     `ApplyTransaction` does not panic, and Transfers that it does not on transfers.
--   * Classify: core/txclassfy.go, the groups of a block by the resources of its transactions.
--   * Executor: executor/executor_server.go, `ExecuteLoop` from the events of the pool to the chain, and the
--     decoding of `CommitBlock`; what becomes of the transactions is in Executor/Blocks.
--   * Tests: concrete inputs.
-- Thread runs messages of Message through Transition, which calls Evm on the accounts of World;
-- Classify reads the access lists of transactions. StateDb uses the access list and its journal, and World
-- keeps the values of its accounts that Evm needs. Validation reads nonces and balances from StateDb,
-- and costs from TxList. Pool keeps lists of TxList by account,
-- a Lookup and a Noncer, and asks Validation. Executor runs Classify and then Thread/Process.
--
-- Conventions: addresses, hashes and storage keys are natural numbers; `uint64` values are natural
-- numbers with the wrap-around written out; amounts are integers where they can go below zero. A Go map
-- is a list of entries in the order in which a loop meets them, which is any order. A nil dereference
-- and an index out of range are `none`, and in Evm and Transition the flag `panicked` of the result. In
-- World a snapshot is the state itself; in
-- StateDb it is an index into the journal. Reads of the database below StateDb do not fail.
--
-- Fuel: `journal.revert` takes the count of the entries above the snapshot; the outer loop of
-- `ClassifyTx` takes the count of the classes, of which each turn takes one; the loop of `SelectTxs`
-- takes a number of turns, and the result says whether it goes on.
--
-- Panics of the interpreter: core/transition.go declares the `TrueAccessList` of a run and never sets it.
-- core/evm/interpreter.go dereferences it in a serial run that records an access, and in a parallel run it
-- calls the nil `execute` of CREATE. A run says so by `panicked`, and so does `ApplyTransaction`, also for a
-- nil access list; a thread that meets it does not return. So what is said of threads, blocks and events
-- assumes a kind of transactions and of states on which `ApplyTransaction` does not panic and which it
-- keeps (Thread/Calm): transfers where no account has code, under any interpreter, or all transactions with
-- an access list, under an interpreter that does not panic.
--
-- Not modelled: the interpreter and the precompiled contracts, which are parameters like the sort of
-- the standard library and the signer; the commit of the state to the tries, its copy and its
-- snapshot tree; the interleavings of the goroutines of `Process`, whose groups are run one after
-- the other; blooms; the truncation of the pool's lists, its reset, its local journal and its heap of
-- prices, whose answers are arguments of `add`; the database,
-- the tries, the encodings and the network.
pub mod Prelude
pub mod Avl
pub mod Noncer
pub mod TxList
pub mod Validation
pub mod Lookup
pub mod Pool
pub mod AccessList
pub mod StateObject
pub mod StateDb
pub mod World
pub mod Evm
pub mod Transition
pub mod Message
pub mod Thread
pub mod Classify
pub mod Executor
pub mod Tests
