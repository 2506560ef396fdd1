-- ===== src/Lib.antt =====
-- Verification of bitcoin-explorer, a library that reads the databases and block files of Bitcoin
-- Core: the block index and the transaction index (leveldb), and the blk files.
--
-- The program. `BitcoinDB` (src/api) holds three parts. The block index reads every record of a leveldb
-- and keeps the longest chain with a map from hashes to heights. The blk files are found by their
-- names, and a block or a transaction is read at a position that an index names. The transaction index
-- gives the position of a transaction, and its height by way of the position of its block. Connected
-- blocks have their inputs replaced by the outputs that these spend, which asks the transaction index
-- and the blk files for each input. The iteration over connected blocks does without that index: worker
-- threads keep a store of unspent outputs, in memory or in a rocksdb database, which reading a block
-- fills and connecting a block empties. Output scripts are classified with the addresses that they pay,
-- and blocks and transactions are handed out in a full and a simple format.
--
-- The files, and the code they are about (paths from the root of the repository):
--   Errors, Errors/Display       src/parser/errors.rs: OpError, its conversions, Display and source.
--   Reader, Reader/*             src/parser/reader.rs: the BlockchainRead methods, and the number
--                                format of Bitcoin Core (WriteVarInt) as their specification.
--   Bitcoin                      the bitcoin crate: types, functions and decoders that the code calls,
--                                as records that the definitions take as parameters.
--   BlockIndex, BlockIndex/*     src/parser/block_index.rs: BlockIndexRecord::from, load_block_index,
--                                BlockIndex::new. Collect is about the loop over the database, Walk
--                                about the loop down the chain, Load and Total put them together.
--   BlkFile, BlkFile/*           src/parser/blk_file.rs: names, the scan of the folder, reads.
--   TxIndex, TxIndex/*           src/parser/tx_index.rs: TransactionRecord::from, TxDB.
--   Script, Script/*             src/parser/script.rs: evaluate_script, is_multisig,
--                                multisig_addresses.
--   Connect, Connect/*           src/parser/proto/connected_proto.rs: connect_input,
--                                connect_tx_inputs, connect_block_inputs.
--   Proto, Proto/*               src/parser/proto: the full and the simple format (Full, Simple), those
--                                of connected blocks (FConnected, SConnected), and how they compare.
--   Outputs, Outputs/*           what a store of unspent outputs promises, as an interface of operations
--                                and laws (Outputs/Store) that both stores fill.
--   Utxo, Utxo/*                 src/iter/util.rs and src/iter/fetch_connected_async.rs: the store in
--                                memory (the feature on-disk-utxo switched off).
--   Disk, Disk/*                 src/iter/fetch_connected_async.rs: the store on disk (the default).
--   IterBlock, IterBlock/*       src/iter/iter_block.rs: blocks of given heights in order.
--   IterConnected, IterConnected/*
--                                src/iter/iter_connected.rs: the steps of the worker threads over any
--                                store that fills the interface, in every order (Schedule), the block
--                                that is built from what the store hands out (Assemble), and the
--                                comparison with the queries: Agree and Format for any format, Full
--                                and Simple for the two, Whole and WholeSimple for a run (Handed).
--                                Finite and Complete are about the end of a run, Failure about a
--                                block that cannot be read, Cache about opening the database.
--   Api, Api/*                   src/api: opening a data folder, and the queries for heights, hashes,
--                                headers, blocks and transactions, connected or not.
--   Common, Common/*             shared names and lemmas: tests on numbers, integers of fixed width,
--                                lists, association lists, outcomes of Rust code.
--   Tests, Tests/*               runs on small inputs, and the theorems at concrete inputs.
--
-- How the code is rendered. A fallible function returns a Result with three cases: a value, an error,
-- and a panic with its text. Unsigned numbers are natural numbers with their wrap-around written out,
-- as in release builds on a 64-bit target; i32 is a signed integer, and `as` is a function. A reader is
-- a list of the bytes that are left. HashMap and BTreeMap are association lists. A leveldb is the list
-- of its entries, or its function get; the file system is a record of functions. The loops are
-- recursion over the bytes, the entries, the list, or the count of rounds: the walk down the chain has
-- as many rounds as the height of its start, plus one, as the code's loop has. The formatter of errors
-- takes fuel, since it may not return. A parallel map is a map, since its results keep their order.
--
-- Worker threads are a step relation: a call of update_unspent_cache or of connect_outpoints is a step,
-- and a block can be connected when all blocks up to its height have been read, as par_iter_sync hands
-- them on in order. Reading a block is a function of its height, so a block that is connected is the one
-- that was read. What rocksdb, the codec of outputs and par_iter_sync do is a record of functions,
-- with a second record of the laws that their documentation gives.
--
-- A chain of blocks in the statements about the iteration (IterConnected/Chain) has no two transactions of
-- one id. The chain of Bitcoin has two pairs of such coinbases, from before BIP 30.
--
-- Not modelled: the internals of leveldb and rocksdb and their options, logging and buffering; the
-- interleaving of threads inside one call; serialisation by serde.
pub mod Common
pub mod Errors
pub mod Reader
pub mod Bitcoin
pub mod BlockIndex
pub mod BlkFile
pub mod TxIndex
pub mod Script
pub mod Connect
pub mod Proto
pub mod Outputs
pub mod Disk
pub mod Utxo
pub mod IterBlock
pub mod IterConnected
pub mod Api
pub mod Tests
