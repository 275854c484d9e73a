-- ===== src/Lib.antt =====
-- A verification library for Blockchain_Demo, a permissioned blockchain node in C++: transactions
-- signed with Ed25519, blocks whose transactions hang from a Merkle tree and whose accounts hang from
-- a sparse Merkle tree, and a PBFT-like consensus between the nodes.
--
-- The parts, and the file that models each:
--   Prelude.antt: shared names, byte strings, lists and tests; no code of its own.
--   HashTable.antt: include/datastructure/custom_hash_table.h, the class template CustomHashTable.
--     A table is its vector of buckets and its size; `put`, `get`, `remove`, `rehash` and `clear` are
--     its methods. `std::hash` is any function (the record Key). `Put` calls `Rehash`, which calls
--     `Put` again: `put_fuel` bounds that nesting by the number of entries, and put-Yields shows that
--     the bound is never met.
--   Encoding.antt: src/common/types.cpp, hashes and their hexadecimal text; the decimal text that the
--     C++ library prints for unsigned integers (Encoding/Decimal.antt) and `std::stoull`
--     (Encoding/Parse.antt).
--   Crypto.antt: src/crypto/crypto_utils.cpp over libsodium, whose functions are the fields of the
--     record Sodium with the facts that its manual states. A theorem that a cryptographer would state
--     under collision resistance ends in `⊎ Collision xs ys`: two different inputs with one hash, one
--     of the inputs `xs` that the one computation hashes and one of the inputs `ys` of the other
--     (Crypto/Collision.antt). Smt/Hashed.antt, Merkle/Proof.antt and Merkle/Root.antt list these.
--   Transaction.antt: src/tx/transaction.cpp and include/tx/transaction.h.
--   Merkle.antt: src/merkle/merkle_tree.cpp. The `while` loop of `BuildLevels` is recursion on fuel, the
--     number of transactions, which is enough because every round shortens the level.
--   Smt.antt: src/smt/sparse_merkle_tree.cpp. A depth `d` of the source is the height `256 - d`. A read
--     past the end of `sibling_hashes` is `none`.
--   Json.antt: the interface Nlohmann, which stands for nlohmann::json; Transaction/Json.antt,
--     Block/Json.antt and Consensus/Json.antt have the conversions of the repository over it.
--   Account.antt: src/user/account_state.cpp.
--   Storage.antt and its children: src/storage/sqlite_storage.cpp over the interface Sqlite. The tables
--     are the record Tables (Storage/Schema.antt), a statement that the code prepares is a constructor
--     of Statement, and `effect` says what it does; Storage/Documents.antt has the rows with JSON
--     texts. A text is bound up to its first zero byte (`c_str`), but the addresses of accounts and the
--     texts of users and sessions are taken to hold none.
--   Outcome.antt: code that changes a state and may throw, and the rules to reason about it.
--   Executor.antt and its children: src/block/block_executor.cpp. Executor.antt has the load of the tree
--     and the execution for a state root, Executor/Commit.antt the commit of a block.
--   User.antt and its children: src/user/user_manager.cpp. Keys, randomness, tokens and times that a
--     call draws are the record Draws, and libsodium's password hash is the record Hashing.
--   Block.antt: src/block/block.cpp and include/block/block.h, without JSON.
--   Mempool.antt: src/tx/mempool.cpp and include/tx/mempool.h, the pending transactions and the index
--     of their identifiers.
--   Consensus.antt and its children: src/consensus/consensus.cpp and include/consensus/consensus.h. The
--     members of `ConsensusEngine` are the record ConsensusEngine; Consensus/Engine.antt has the event
--     log, the quarantine and the primary, Consensus/Voting.antt the record and the count of votes,
--     Consensus/Views.antt view changes, Consensus/Messages.antt the handlers. Consensus/Steps.antt is
--     the relation between states of one node, one constructor for each operation that changes them.
--   Api.antt and its children: src/api/api_server.cpp. Api.antt has the handler `/p2p/sync/block` and
--     `CommitBlockWithSignatures`, Api/Messages.antt the handler `/p2p/consensus/message`, and
--     Api/Range.antt the handler `/p2p/sync/blocks`; Api/Synced.antt, Api/Offered.antt and
--     Api/Unproven.antt have what they take. Api/Trace.antt has the steps that the pages of proofs show;
--     257 rounds are enough for its loop, whose counter wraps below 0, and 102 for the loop over a
--     range.
--   Tests.antt and its children: the theorems at concrete inputs, over a toy Sodium and a toy Sqlite.
--
-- How the parts interact: the trees, the block hash and the signatures use Crypto; the mempool and the
-- consensus engine keep their indexes in hash tables; the engine reads and writes Storage,
-- the executor keeps the accounts in Storage and their digest in the sparse Merkle tree, and the user
-- manager opens accounts.
--
-- Conventions. A `std::string` and a byte vector are lists of numbers. An exception is `none` where the
-- state that it leaves does not matter, and an Outcome or a Returned with that state where it does. A
-- reading of the clock is an argument, and the readings of one call are equal. A `uint64_t` that the code increments wraps at 2 ^ 64; `int` counts and sizes do not
-- reach their bounds, and the fault bound `f` is not negative. A mutex makes each operation one step.
--
-- Not modelled: the other HTTP routes of src/api/api_server.cpp, its catch-up and its block production
-- loop, which need the network and threads; the CREATE TABLE statements; configuration files, the
-- logger, the command line and the front end.
pub mod Prelude
pub mod HashTable
pub mod Encoding
pub mod Crypto
pub mod Transaction
pub mod Merkle
pub mod Smt
pub mod Mempool
pub mod Json
pub mod Account
pub mod Block
pub mod Storage
pub mod Outcome
pub mod Executor
pub mod User
pub mod Consensus
pub mod Api
pub mod Tests
