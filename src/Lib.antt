-- ===== src/Lib.antt =====
-- ipfs-blockchain-watcher: a service that streams blocks of Ethereum or Bitcoin, publishes them as
-- IPLD objects, indexes their CIDs in Postgres, and serves filtered blocks to subscribers.
--
-- Parts and files (paths from the repository's root):
-- - Prelude (with Tests, Lists, Int, Assoc, Results, Collect, Occurrences): shared notation and
--   lemmas. Int has Go's int64 and uint64 with their wrap-around, Assoc its maps as association lists, Results its
--   (value, error) pairs and panics.
-- - Shared: pkg/shared, the enums of chains, data types and IPFS modes with their parsers. Texts are
--   lists of code points; lower case outside ASCII is a parameter.
-- - Utils: utils/utils.go, a block range cut into batches and missing heights grouped into gaps. The
--   loops are structural; the inner loop of a batch has as many rounds as the batch has heights.
-- - Retriever: RetrieveGapsInData of pkg/eth/cid_retriever.go and pkg/btc/cid_retriever.go. A table
--   is the list of its rows, a statement a function of it, and a failing statement an error value.
-- - Eth: pkg/eth. Models, Types and Settings are its data; Checks and Filterer are filterer.go;
--   Retrieval has the WHERE clauses of cid_retriever.go as tests of a row; Reward is reward.go.
--   go-ethereum and the CID library are the parameter EthLib.
-- - Btc: pkg/btc, its data and filterer.go, with btcd as the parameter BtcLib.
-- - Watch: pkg/watch/service.go, subscription.go and helpers.go. A Service is the two maps that the
--   mutex guards and what the clients' channels hold. Watch has filterAndServe and close,
--   Watch.Requests has Subscribe, sendHistoricalData and Unsubscribe. Each handler is one atomic step;
--   Watch.Reachable has the steps as a relation, in any order. The chain's filterer, retriever and
--   fetcher and the hashing of settings are the parameter Backend. The loop of sendHistoricalData has
--   its int64 counter and runs on fuel; more fuel than the range has blocks is enough, below the
--   greatest int64.
-- - Sql: the connection to Postgres as the cleaners and the indexers use it. A Statement changes the tables or is refused;
--   which ones are refused, by their number, is an argument. A transaction has the effect of all or of
--   none. Sql.Rows has the columns that the statements read, and deletion.
-- - Eth.Tables, Eth.Cleaner, Btc.Tables, Btc.Cleaner: pkg/eth/cleaner.go and pkg/btc/cleaner.go, over the
--   tables of db/migrations. A DELETE names rows and takes those with it whose block or parent row is
--   deleted (ON DELETE CASCADE). Ids are numbers, and rows of the nodes table are left out.
-- - Eth.Indexer, Btc.Indexer: pkg/eth/indexer.go and pkg/btc/indexer.go. Sql.Upsert has tables with
--   one unique key, INSERT ... ON CONFLICT DO UPDATE on them, and the transaction whose Commit is
--   deferred, Sql.Values the columns of rows. Keeps, Rows and Links say what is in the tables,
--   Statements and Nodes what each statement ensures.
-- - Workers: the goroutines of a resync, or of a search pass of the backfill, as a relation between the
--   states of the sender and the workers; Workers.Pipeline has what a worker calls and logs.
-- - Resync: pkg/resync/service.go; Historical: pkg/historical/service.go. The service's components are
--   told by their package; the cleaner of a resync is an interface, filled by Eth.Cleaner. A resync
--   without a worker and with a batch to send does not return: its outcome then has no error value.
-- - Ipld: pkg/ipfs/ipld/trie_node.go with shared.go and eth_storage.go. Path has the texts of paths as
--   runes, TrieNode the decoder, Resolve the paths through a node. RLP, multihashes and CIDs are the
--   parameter IpldLib.
-- - Builders: pkg/builders/builders.go, which component each constructor returns.
-- - Tests: the theorems at concrete inputs.
--
-- Not modelled: connections, logging, wait groups, command line and configuration; the ticker and the
-- Stop of the backfill; the converters and publishers, the JSON-RPC backend, and the IPLD codecs
-- but for trie nodes. make with a capacity that no memory has is taken to succeed.
mod Prelude
pub mod Shared
pub mod Utils
pub mod Retriever
pub mod Sql
pub mod Workers
pub mod Resync
pub mod Historical
pub mod Ipld
pub mod Eth
pub mod Btc
pub mod Builders
pub mod Watch
mod Tests
