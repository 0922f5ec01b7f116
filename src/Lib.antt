-- ===== src/Lib.antt =====
-- evm_garbage_collector: the durable core of a tool that moves a wallet's leftover assets, across
-- chains, to an exchange's deposit addresses. It plans routes, signs transactions and broadcasts
-- them; a payload must not be sent and then forgotten. The journal, an SQLite file, records what
-- is about to be sent, and it is the heart of this development.
--
-- The parts, with the code of each:
-- - Prelude: what the modules share. Texts are lower-cased on ASCII letters only; integers are the
--   naturals, or `ℤ` where the source has to refuse a negative one.
-- - Journal (src/evm_inventory/journal.py). Journal/States has the three tables of transitions;
--   Journal/Tables the tables and their rows, and the queries; Journal/Session the connection, with
--   the implicit transactions of Python's sqlite3; Journal/Inputs the checks on amounts and
--   digests; Journal/Value the payloads of checkpoints. Operations, Groups, Positions, Steps,
--   Checkpoints and Reactivation have the methods of Journal, under their names: a method is a
--   `Session`, a function from a connection to a result or an exception and the connection that is
--   left. Ledger has every operation as a command, and any sequence of commands, with crashes
--   between them; Atomic and History are about these sequences.
-- - Rpc (src/evm_inventory/rpc.py): the decoding of quantities, and an endpoint as a function from
--   a method and the text of its parameters to a JSON value or an exception.
-- - Executor (src/evm_inventory/executor.py): Request has TransactionRequest of
--   src/evm_inventory/lifi.py, Gas the reserves and the price limits of Ethereum, Broadcast the
--   durable broadcast, over the journal's connection and the list of what was sent, Receipt the
--   wait for a receipt. Each sent payload is listed with the tables that were committed when it
--   went out, which a crash would leave.
-- - Bridge (src/evm_inventory/route_execution.py): the wait for a bridge. Bridge reads a status of
--   the provider, with AssetIdentity of src/evm_inventory/models.py, Bridge/Delivery is the loop
--   over the journal's connection; Evidence, Sound and Arrival are about what it has seen and the
--   round that sees the arrival.
-- - Fees (src/evm_inventory/fee_planner.py): the parts of the fee planner; Fees/Plan has its method
--   plan, and Fees/Plan/Sound is about its result.
-- - Routing (src/evm_inventory/planner.py, src/evm_inventory/route_plan.py and
--   src/evm_inventory/route_batch.py): which positions are worth a quote.
-- - Jobs (src/evm_inventory/quote_jobs.py): the table of quote jobs; Jobs/Claims has the method
--   claim, Jobs/Runs any sequence of the operations by any clients, Jobs/Leases the leases,
--   Jobs/Freshness the results that are stored.
-- - Quota (src/evm_inventory/lifi_quota.py): the tables of one scope; Quota/Operations has the
--   methods of LifiQuotaStore, Quota/Calls any sequence of them by any stores. Window, Reserve,
--   Cooldown and Dispatch are about such sequences.
-- - RouteCheckpoints (src/evm_inventory/route_checkpoints.py): encode and decode of the snapshots
--   of routes that the journal's checkpoints hold; RoundTrip and Secrets are about the values they
--   exchange and the keys they leave out.
-- - Scan: Scan/Store has the tables of src/evm_inventory/store.py for assets, discovery and passes,
--   Scan/Buffer the class ScanBuffer of src/evm_inventory/scan_buffer.py, which scanners write and
--   whose operations are replayed into the store. Relation, Appended, Simulated, Upserts and
--   Simulation relate the two, Loaded from the first moment on, and Framed is about the rows of the
--   other wallets and networks. Refinement is about saving a buffer, Networks about saving several.
--   What the scanner itself writes to the store between two saves is not in it.
-- - Tests: the theorems at concrete inputs.
--
-- How they meet: the fee planner fills in a TransactionRequest; Executor.Gas refuses what is too
-- dear; Executor.Broadcast records the intent of the signed payload in the journal, then its
-- attempt, and only then calls the endpoint; the callers record receipts and states in the journal,
-- and after a crash recover from it. Before a transaction there is a quote: a worker claims the
-- quote's job, reserves a request and a dispatch slot of the quota, sends the request, tells the
-- quota of the response and finishes the job.
--
-- Representation and bounds. The wait for a receipt, Executor/Receipt, has as fuel one round more
-- than the timeout has units of the clock, since each round is later than the one before it. No
-- other definition uses fuel: all recursion is on lists, texts or numbers. A loop that polls
-- takes the list of its rounds, and is still waiting where they are over. Amounts of money are
-- numbers of quanta, 10 ^ 18 to the unit: an amount is a multiple of 10 ^ -18, and normalising
-- does not round it, as the source's context of 28 digits would. Raw amounts, which the source
-- stores as texts of digits, are their numbers; a text that is read has ASCII digits here, and
-- any decimal digits of Unicode in the source. sqlite3's 63-bit columns keep that bound. The
-- timestamps of the journal are written and never read, and are left out; the clocks that leases
-- and quotas read are arguments, in whole ticks, 10 ^ 6 to the second. The median of two rewards
-- is exact where their sum is below 2 ^ 53, as in Python. The messages of exceptions leave out
-- what is formatted into them. Parameters stand for the digest of hashlib, the answers of
-- endpoints, the callback that quotes, the encodings of json, eth_abi and rlp, and, for the
-- snapshots of routes, the types of decimal and datetime and the dataclasses' names, fields and
-- calls.
--
-- Not modelled: signing (eth_account), the network and the clock, reports and the command line,
-- whose work is input and output; the threads of the stages (src/evm_inventory/stages.py); the
-- migrations of old journal files; in the journal, the accounting of realised losses by position,
-- the WETH continuation and the counts for reports; and the clients of LI.FI, Relay, Bitget and
-- Rabby, the planners and executors above the journal, but for the wait for a bridge, and the
-- scanners, which build on what is here.
pub mod Prelude
pub mod Journal
pub mod Rpc
pub mod Routing
pub mod RouteCheckpoints
pub mod Scan
pub mod Executor
pub mod Bridge
pub mod Fees
pub mod Jobs
pub mod Quota
pub mod Tests
