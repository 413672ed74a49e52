-- ===== src/Lib.antt =====
-- The Carmentis node: an ABCI application behind CometBFT, which keeps virtual blockchains,
-- accounts and validators. Its state is in tables behind a write cache, in files of microblocks,
-- and in trees whose root hashes the consensus sees.
--
-- Fees models src/carmentis/abci/accounts/FeesDispatcher.ts, which splits the fees of a block among
-- the validators. `dispatch` is the method of that name; its two loops are `distribute` and
-- `hand_out`. The second runs as often as there are units left, so its bound is the number of
-- rounds itself. Amounts and their sums are integers below 2 ^ 53. The product of the fees and a
-- power, and its quotient by the total, are those of doubles, rounded as Base.Doubles says; its 128
-- bits are enough for the product of two such integers. NaN, which a total power of zero gives, is
-- `none`.
--
-- Database models src/carmentis/abci/database. Level is LevelDb.ts over the package `level`, an
-- interface with the laws that the node relies on: reads, iteration, and a batch applied in order
-- or not at all. Cache is CachedLevelDb.ts: the insertions and deletions of each table since the
-- last commit. `view` is what a table should hold, the committed content with the cached changes
-- applied; a cache is valid if the keys in it are encoded ones and no key is both inserted and
-- deleted. MerkleNodes has the two accessors of AbstractLevelDb.ts that the Merkle tree calls.
--
-- Stores is the database as the other parts see it: tables with a read, a write and a deletion,
-- which CachedStores fills with the cache. Of a deletion they rely only on what it leaves alone.
--
-- Merkle models src/carmentis/abci/persistentMerkleTree/PersistentMerkleTree.ts, which keeps the
-- hashes of the microblocks of a virtual blockchain in the table of Merkle nodes, through the
-- database's `getMerkleNode` and `putMerkleNode` (the interface `Nodes`, which Merkle.Cached
-- fills). Its loops over rows run on the number of rows left, the height less one, which is at most
-- 32 (`bit_length` has 32 bits of fuel for the same reason). Numbers that the source shifts are
-- below 2 ^ 32. SHA-256 and the null hash are parameters of 32 bytes. `node` is the tree as a
-- function of its leaves.
--
-- Challenge models src/carmentis/abci/challenge, by which a node shows that it stores the data
-- files. File is ChallengeFile.ts, and Manager is ChallengeManager.ts over the table of data files
-- of Database. The loop of `readOrFail` has two rounds of fuel more than bytes to read: with a
-- positive committed size every round reads a byte. `circular` is the committed part of a file
-- taken round. What the storage holds at the path of a file identifier is a parameter, as is the
-- codec of an entry.
--
-- Snapshots models the list of chunks that `createChunksFile` of
-- src/carmentis/abci/snapshots/SnapshotsManager.ts makes, before its records are encoded. The inner
-- loop has two rounds of fuel more than bytes in the file: with a positive chunk size all its
-- rounds but the first take a byte. A place is a file identifier and an offset. Copies is
-- SnapshotDataCopyManager.ts; a file is its content, and what a failed copy leaves is left out.
--
-- Accounts models src/carmentis/abci/accounts: State is AccountStateManager.ts and
-- ModifiedAccounts.ts, History, Transfer, Escrow and Staking are the handlers of those names
-- (stakes, slashing and vesting together), and Manager is the rest of AccountManager.ts, whose
-- other methods only call a handler. A handler runs on a `World`, the database and the modified
-- accounts, and what it changed before it throws stays changed. `BalanceAvailability`, `Economics`
-- and the codecs are the parameter `Sdk`: adding tokens adds to the balance, spendable tokens are
-- part of the balance, and decoding undoes encoding. Amounts are integers, those of a transfer not
-- negative. `loadHistory` and `getHistoryRange` run on the number of records left.
--
-- RadixTree models src/carmentis/abci/radixTree/RadixTree.ts: Nodes has the bytes of the nodes,
-- Read and Write have the methods, which recur on the number of nibbles below the depth. A write
-- that does not fit in its array throws. `RadixUtils`, `RADIX_CST` and SHA-256 are the parameter
-- `RadixSdk`. Accounts.Tree is the tree that the accounts update.
--
-- Storage models src/carmentis/abci/storage: Paths has the file names and the search for expired
-- files, Files the writes and reads of Storage.ts, Cached the buffer of CachedStorage.ts, and
-- Cleaner StorageCleaner.ts and `purgeDataFileTable`. The disk maps paths to contents; of its
-- errors only a missing file is modelled, and a microblock is taken with its hash. The codecs, the
-- calendar and the joining of paths are parameters.
--
-- StateProof models src/carmentis/abci/stateProof/StateProof.ts over Merkle and RadixTree, which
-- both read the tables of one database. The heights of microblocks start at one.
--
-- GlobalState models src/carmentis/abci/state. A `Node` is a GlobalState with the updater that works
-- on it: the cached database with the modified accounts, the database below it, the cached storage,
-- and the statistics of a block. State has GlobalState.ts; Sections, Validators, Days, Writers,
-- Microblocks and Blocks have GlobalStateUpdater.ts by what it updates, and the other modules the
-- proofs. Loading a virtual blockchain, signatures and codecs are the parameter `NodeSdk`, and so is
-- the challenge over the files. What a call has changed before it throws stays changed, but a tree of
-- Merkle that lacks a node, which makes an addition throw, is left as it was. The balance of the
-- block fees is not negative. Fees and stakes are integers.
--
-- Abci models the calls of CometBFT in src/carmentis/abci/AbciService.ts over GlobalState, and
-- src/carmentis/abci/services/EarlyMicroblockRejectionService.ts. Runs has the loops over the
-- transactions, for any treatment of one; Service has CheckTx, PrepareProposal, ProcessProposal and
-- FinalizeBlock. The decoding and the checks of a microblock that the SDK makes are the parameter
-- `ServiceSdk`. A working state is the node with its caches cleared.
--
-- Genesis models the lookups of src/carmentis/abci/GenesisRunoff.ts.
--
-- Base holds numbers, lists, byte strings, insertion-ordered maps, calls that may throw (Results),
-- and calls that change a state and may throw (Effects). The text of an error is left out, and so
-- are logging and timing. Awaited calls run in the order of the source, with nothing in between.
--
-- Not modelled: the rest of the snapshots, the builders of the genesis block, and of the ABCI service
-- the commit with its snapshots, the start of the chain and the queries, which are larger parts of
-- their own; the commit of GlobalState, whose database is an interface without the failures of a
-- batch, which Database.Cache has; generated code, configuration, and the calls of the SDK.
pub mod Base
pub mod Fees
pub mod Database
pub mod Merkle
pub mod Challenge
pub mod Snapshots
pub mod Accounts
pub mod RadixTree
pub mod Storage
pub mod Genesis
pub mod StateProof
pub mod GlobalState
pub mod Abci
