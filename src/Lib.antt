-- ===== src/Lib.antt =====
-- Openrelay, a relay for 0x orders: orders come in over HTTP (ingest), pass from queue to queue while
-- their fills, cancellations and funds are looked up (funds, channels), and are stored and searched in
-- a database (db, search); monitors follow the blocks of the chain and feed what they see to the same
-- queues (monitor). This library models the parts below. A Go struct is a record and a Go function a
-- function by clauses; a call that can fail returns an `Outcome` (Prelude/Results.antt) with the
-- cases value, error and panic; the Go functions that reply to a request and return have results of
-- their own (Ingest.antt).
--
-- Files and the code they model:
--   Prelude: lists, Boolean tests, integers and byte strings, with their laws.
--   Types/Text: types/util.go, and the hex and decimal texts of the standard library that it calls.
--   Types/AssetData: types/asset_data.go and the constructors of common/util.go. Types/Signature: types/signature.go.
--   Types/Order: types/order.go; Order/Json has the JSON round trip, Order/Binding the hash.
--   Blocks/Ring: monitor/blocks/block_ring_buffer.go; Ring/Refine compares it with the list of all
--     blocks that were added.
--   Blocks/Monitor: Process and publish of monitor/blocks/blocks.go, cut at its calls: begin and
--     after_first are the part before the loop, round is one round of it (after_header, wind_back with
--     after_parent, finish_round), and process runs n rounds.
--   Funds/OrderValidate: funds/order_validate.go. Funds/Consumers: the other consumers of funds/.
--   Db/Order: db/order.go. Db/Indexer: db/indexer.go and db/cancellations.go.
--   Db/Exchange: db/exchange.go, its caches compared with the table in its child. Db/Pairs: db/pairs.go.
--   Ingest: Handler of ingest/ingest.go, with Fee of pool/pool.go and Discount of
--     accounts/account.go. Its early returns are lists of tests with the reply of each.
--   Terms: db/terms.go. Terms/Handlers: TermsHandler of terms/terms.go; its child says what 202 means.
--   Chain: logs, queries and the node. Monitors: monitor/fill, cancelupto, allowance, erc721approvals,
--     spend, affiliate and multisig, one child each; a log is turned into a `Step`, and Monitors.each is
--     the loop over the logs of a block. Their children join them with Db/Indexer; Monitors/Fill/LookedUp
--     joins the fill monitor with FillBloom and the lookups of Funds/Consumers.
--   FillBloom: fillbloom/fillbloom.go. Db/Consumers: the four consumers of db/ that settle messages.
--   Ingest/FeeInfo: ingest/fee_info.go, joined with the fee check of ingest in its child.
--   Search/Query: the filters of search/search.go; Search/Pages: pages, formatting and
--     search/fee_recipients.go; Search/Handlers: SearchHandler, with Filter of pool/pool.go;
--     Search/Book: search/orderbook.go and search/order.go.
--   Channels: the queues of channels/queue_consumer.go, with channels/delivery.go, channels/publisher.go
--     and channels/relay.go, over an interface for the commands of Redis on lists, which are taken to
--     succeed; Channels/Ordered is about the order of delivery. Channels/Delay:
--     channels/delay_relay.go as a state machine of its consumer and of Flush.
-- A Go string is the list of its bytes. A slice's capacity is taken to be its length, so that slicing
-- beyond the length panics. An address is 20 bytes, a uint256 is 32 bytes; big.Int values are native
-- naturals or, where they can be negative, integers (Prelude/Int.antt). Error texts stand for the call
-- that made them and are not compared, except the one that ValidateOrder compares.
--
-- Parameters, since their code is not in the repository proper: Keccak256, Ecrecover, BytesToAddress
-- and abi.U256 of go-ethereum; rlp and encoding/json; LIKE, Offset and Limit of the database; bloom filters; the node, the contracts and their bloom filter;
-- the commands of Redis (the laws of Channels/Returned.antt); the quotient of two amounts as a float64.
-- What is assumed of them is a hypothesis of the theorem that needs it: 32 bytes for Keccak256, big-endian words for abi.U256. The node, publisher
-- and recorder of the block monitor may answer each call differently: they are asked with the number
-- of calls made before. A database table is the list of its rows; the statements are the SQL that the
-- code sends, read on those rows, and succeed unless the model says otherwise. Goroutines that share
-- nothing are values; where the order of their answers can show, it is an argument.
--
-- Fuel: dec_string takes n + 1 rounds for the digits of n, wind_back as many as the ring has places,
-- which is the code's own bound, and and_bits as many bits as the mask's value, which has no more. The
-- main loop of the monitor is run for n rounds, for every n, since it ends only at the quit signal.
-- Initialize of the bloom filter takes as many rounds as the number of the last block, which is enough
-- for a positive chunk.
--
-- Not modelled: RLP texts, waiting and logging, the random draws of hash masks and nonces, the handler of
-- token pairs, topics of Redis, the services over Redis, generated bindings, configuration, the
-- commands, and the front end.
pub mod Prelude
pub mod Types
pub mod Blocks
pub mod Chain
pub mod Db
pub mod FillBloom
pub mod Funds
pub mod Ingest
pub mod Monitors
pub mod Search
pub mod Terms
pub mod Channels
