-- ===== src/Lib.antt =====
-- Verification of the swap core of Swapfloor: the trade state machine, the messages that drive it,
-- the checks that a payer makes before the Lightning payment, the store of receipts, and the parts
-- of the automation that decide.
--
-- A swap trades satoshis over Lightning for USDT on Solana. Its parties exchange signed envelopes.
-- Each envelope is checked against a schema (src/swap/schema.js), its signature is verified
-- (src/protocol/signedMessage.js), and `applySwapEnvelope` (src/swap/stateMachine.js) moves the
-- trade: terms, accept, invoice, escrow, paid, and then claimed or refunded, or canceled. Before
-- paying, the payer runs `verifySwapPrePayOnchain` (src/swap/verify.js), which decodes the invoice
-- (src/ln/bolt11.js), compares invoice, escrow and terms, and reads the escrow and its vault from the
-- chain (src/solana/verifyLnUsdtEscrow.js, src/solana/lnUsdtEscrowClient.js). The connection that it
-- reads by goes over a pool of endpoints (src/solana/rpcPool.js). The outcome is kept in a local store
-- of receipts and listing locks (src/receipts/store.js). The automation (src/prompt/tradeAuto.js)
-- answers RFQs from the maker's offers and takes a trade through its stages, jobs
-- (src/prompt/autopost.js) post an offer or an RFQ again until it expires, and a guard
-- (src/prompt/lnPeerGuard.js) keeps a Lightning peer connected. What the tools do is written to an
-- audit log (src/prompt/audit.js), without the secrets (src/prompt/redact.js).
--
-- Files
--   Common          names of the libraries, Boolean tests on numbers, lists, results with lemmas and
--                   the ruleset `returns`
--   Js              the language: Text (strings as code units), Value (values, property reads, `===`,
--                   `String(v)`), Reply (a promise), Convert (`Number(v)`, `BigInt(v)`, the
--                   small normalizers that the modules declare), Parse (`parseInt`), Stringify
--                   (src/util/stableStringify.js)
--   Swap.Constants  src/swap/constants.js
--   Swap.Schema     src/swap/schema.js: `validateSwapEnvelope` with a function for each kind of body, in
--                   Negotiation and Settlement
--   Swap.Envelope   src/protocol/signedMessage.js, src/swap/hash.js, src/swap/terms.js
--   Swap.Listings   src/swap/listings.js, src/swap/app.js
--   Swap.Machine    src/swap/stateMachine.js: Core is the trade record of `createInitialTrade` and
--                   `requireSigner`, Negotiation, Payment and Outcome hold a function for each case of
--                   the `switch`, and `apply_swap_envelope` is `applySwapEnvelope`
--   Swap.Prepay     src/swap/verify.js
--   Swap.Valid, Swap.Trades, Swap.Payer
--                   the theorems on the schema, on trades and on the payer's checks
--   Ln.Bolt11       src/ln/bolt11.js; Ln.Invoices has the theorems
--   Solana          Bytes, Keys, Accounts, Instructions and ConfigInstructions are
--                   src/solana/lnUsdtEscrowClient.js, OnChain is src/solana/verifyLnUsdtEscrow.js,
--                   Pool is src/solana/rpcPool.js, Guardrail is src/prompt/solEscrowGuardrail.js;
--                   the other files have the theorems
--   Ln.Peers        src/prompt/lnPeerGuard.js: the address and the probe of a peer, and `LnPeerGuard` in
--                   Guard; Guard.Paced has the theorem
--   Receipts        src/receipts/store.js: Columns (the coercions and the patch of a row), Table (the
--                   SQL statements), Store (`TradeReceiptsStore`) and Migration (`open` on older files);
--                   Writing is a sequence of calls, and the other files have the theorems
--   Auto            src/prompt/tradeAuto.js: Events (what is read from an event), Intake
--                   (`_appendEvents`), Precheck (`parseLnRoutePrecheckStatus`), Offers
--                   (`matchOfferForRfq`) and Stages (the record of stages, aborts and failed payments);
--                   Intake.Once, Matching, Answers and Attempts have the theorems
--   Autopost        src/prompt/autopost.js: the lines of an offer and the checks of a time, Jobs
--                   (`AutopostManager`: its jobs, start, stop, and a run); Lines.Numbered and Jobs.Runs
--                   have the theorems
--   Audit           src/prompt/redact.js and src/prompt/audit.js; Hidden has the theorem
--   *.Tests         concrete runs, and the theorems at concrete data
--
-- State and operations
--   A handler is a function from the envelope and the trade to a `Result`: a value, a refusal, which
--   is `{ ok: false, error }`, or an exception. A trade is a record; the evidence fields hold `null`
--   or the body of an envelope, as in the source. `apply_all` is a caller that keeps the old trade
--   when an envelope is refused. A copy by `JSON.parse(JSON.stringify(v))` is the value itself.
--   The store is a record of two tables and a log; a table is the list of its rows, with the primary
--   key apart. A call takes the store and gives the next one with what it returns, and one that
--   throws leaves the store as it was. Clocks are arguments: `now`, and `created` for the first look
--   of a call at the clock. The guard and the record of stages are records that a tick or a mark
--   turns into the next one; what the node, the network or a tool answers is an argument.
--
-- Parameters
--   `Crypto` is the wallet library with its hexadecimal codec and SHA-256, `Bech32` the library of this
--   name with b4a, `Web3` the key type, the base58 codec and the address derivation of the Solana
--   libraries, `Chain` what a connection answers. Where a theorem needs something of one of them, it
--   is a hypothesis of the theorem. The operation that runs over the pool is an argument: a function of
--   the endpoint.
--
-- Bounds
--   A JavaScript number is an integer of any size or the one value `nan`, which stands for every
--   number that is no integer; a double holds integers exactly up to 2^53, and times and amounts
--   of a swap are below; lamports are whole numbers. Machine integers of accounts keep their width
--   (2^64, 2^16). `toLowerCase` is modelled on the ASCII letters, `Number(s)` and `BigInt(s)` on
--   decimal digits. Error texts keep their constant part where the source adds a value to them.
--   Keys of objects are in insertion order, each once. A patch of a receipt may be any object; the
--   theorem on patches asks that each of its keys stands once, as in JavaScript.
--   The loop over the tagged fields of an invoice takes the number of words as its fuel, since
--   each round uses up three words or more; the loop over the endpoints makes as many rounds as
--   there are; the search for a free index of a line, as many as there are indices; `decimal` takes the
--   number itself, which has no more digits.
--
-- Not modelled
--   Processes, sockets, files, HTTP and RPC calls; building, signing and sending transactions around
--   the instructions; the language-model front end and its tool executor; the user interface. Of
--   src/prompt/tradeAuto.js the pruning of caches by age and the tick that chooses among trades are
--   left out; of src/prompt/autopost.js the status of the jobs; the price oracle (src/price) is not
--   modelled. Timers are the calls that they make, and paths, pragmas and indexes of the database file
--   have no counterpart.
pub mod Common
pub mod Js
pub mod Ln
pub mod Swap
pub mod Solana
pub mod Receipts
pub mod Auto
pub mod Autopost
pub mod Audit
