-- ===== src/Lib.antt =====
-- drivechain-esplora indexes one rust sidechain into Postgres and serves it over HTTP. This library
-- models the indexer, that is what it reads from the node, the rows it makes of a block, the statements
-- that write and roll back those rows, the pass that keeps the index level with the node and the
-- wrapper that each connection sits behind; and the server: the queries and the routes.
--
-- The parts, the files that model them, and the code they stand for:
--
--   Chain.Text, Chain.Hash      internal/chain/hash.go, and the hex, decimal and u32 texts it uses
--   Chain.OutPoint              internal/chain/outpoint.go: kinds, the 37-byte key, market funds, the
--                               object an outpoint is written to and read from
--   Chain.ByteText              internal/chain/bytes.go: Bytes, ByteString and decodeHex
--   Chain.Block                 internal/chain/block.go: blocks, the coinbase txid, AuthorizationsFor,
--                               and in Chain.Block.Json the forms of an input and of a coinbase
--   Chain.Content               internal/chain/{thunder,photon,zside,coinshift,bitassets,bitnames,
--                               truthcoin}: DecodeContent, and Variant of internal/chain/bytes.go
--   Chain.Node                  internal/chain/node.go
--   Chain.Registry              internal/chain/registry.go, internal/chain/register
--   Store.Tables                internal/store/migrations: a record for each row, a list for a table
--   Store.Write                 internal/store/write.go: Apply and Rollback
--   Store.State                 the rest of write.go that the syncer calls, and SetMainHeight of
--                               internal/store/tx.go
--   Store.Mempool               internal/store/mempool.go: ReplaceMempool and setMempoolFees
--   Store.Mempool.Query         the reads of mempool.go
--   Store.Read                  internal/store/read.go
--   Store.Tx                    the other reads of internal/store/tx.go
--   Store.Activity              internal/store/activity.go
--   Store.Migrate               migrate of internal/store/store.go
--   Store.Concurrent            inTx of internal/store/store.go, and the transactions of both syncers
--   Store.Open                  Open of store.go, and the connector of the stores in the command
--   Store.Query                 the queries of one request, one after the other
--   Service                     internal/service/service.go
--   Index.Prepare               internal/index/prepare.go
--   Index.World                 the state of the passes, and their calls to the outside
--   Index.Sync                  internal/index/sync.go
--   Index.MempoolSync           internal/index/mempool_sync.go
--   Index.Run                   the Run loops of sync.go and mempool_sync.go
--   Index.Relay                 internal/index/broadcast.go and withdrawals.go
--   Mainchain                   internal/mainchain/enforcer.go
--   Rpc                         Call of internal/rpc/client.go
--   Api.Reply                   what a handler of internal/api answers, failed and notFound
--   Api.Esplora                 internal/api/esplora.go, and the bodies of activity.go
--   Api.Server                  what the routes share: server.go, and the helpers of handlers.go
--   Api.Blocks, Transactions,   internal/api/handlers.go, activity.go and write.go
--     Mempool, Drivechain
--   Api.Address                 internal/api/address.go
--   Api.Unavailable, Api.Limits  the routes without a store, and the lengths of lists
--   Command                     cmd/drivechain-esplora/main.go, from the flags to the addresses
--   E2e.FakeNode                internal/e2e/fakenode.go, and the syncer against it
--   Base                        tests on numbers and bytes, lists, results, loops, ORDER BY
--   Tests                       runs and the theorems at concrete data
--
-- A pass goes through all of them: Index.Sync asks the node for a block, Index.Prepare turns it into
-- rows with the decoder of Chain.Content, Store.Write writes the rows in one transaction, and
-- Service hands out the node and the store. A route of Api asks Service for the store, then queries
-- Store.Read, Store.Tx, Store.Activity and Store.Mempool.Query, and builds a body of Api.Esplora.
--
-- How code becomes definitions. A Go function with an error is a function into Base.Outcome.Result.
-- The database is one record of lists; a statement is a function on it; a transaction that fails
-- leaves it as it was. The syncer is a state monad over a World, and what lies outside the program,
-- that is the node, whether the database answers, the enforcer and the context, is an `Env` for each
-- call, so it may change or fail between any two calls. A handler is a function of what its queries
-- find: `views i` is the tables at the i-th query, or nothing for a query that fails. It answers a
-- body or a status.
--
-- Numbers. Integers are the native ℕ; a u32, a u64 and an int64 carry their bounds and wraps. An
-- INTEGER column holds a u32 by its bit pattern and is compared as a signed number, which is why the
-- theorems on whole indexes ask for heights below 2 ^ 31. A u32 prints in at most ten digits, which
-- is the fuel of `digits`.
--
-- Parameters. encoding/json is the interface `Json` and the function `unquote`; for byte strings three
-- functions, which read a text, read an array and write a text, and inputs and coinbases are read and
-- written by the same functions. For a node's results it is the record `NodeJson`, one reader for each
-- Go type, in which the methods of internal/chain that encoding/json calls on the way are folded; its
-- laws are about the block count of the node, which the source reads as a uint32, the hashes of its
-- chain, and nil. blake3, sha256 and base58 are functions; a decoder is a function from
-- a payload to a Content.
--
-- Simplifications of Postgres. A table is in insertion order, and ORDER BY is stable: rows that it
-- leaves equal keep that order, where Postgres may take any. An UPDATE that joins one row with two
-- spends takes the first of them, where Postgres may take either. A JSONB column keeps the payload
-- as it was handed in. A deleted block takes its transactions with it, as the foreign key says.
--
-- Fuel. Index.Run.follow makes a pass for each unit, and answers that it still goes on when they are
-- used up. The client of Api.Address.Paging reads a page for each unit; one unit more than the height
-- it starts from is enough.
--
-- Not modelled: the router, the JSON encoding and the texts of failures in internal/api, the HTTP
-- transports of internal/rpc and internal/mainchain, the listener of internal/e2e, the timers and logs
-- of Run, the connection pool, and the flags and the goroutines of the command.
pub mod Api
pub mod Base
pub mod Chain
pub mod Store
pub mod Service
pub mod Index
pub mod Mainchain
pub mod Rpc
pub mod Command
pub mod E2e
pub mod Tests
