-- ===== src/Lib.antt =====
-- STAMP: the protocol that burns a Solana token and issues a Zcash stamp for it, and the replay of
-- ownership records that says who owns a stamp. All paths are from the repository's root.
--
-- The parts and their modules:
--   Prelude, Text, Sort, Bytes   shared: Boolean tests and lists over native numbers, JavaScript maps
--     (Prelude.Dict), strings as lists of code units, Array.prototype.sort as an insertion sort (its
--     result is determined where the comparator is an order), byte arrays, hex, words
--   Protocol.Types       src/lib/protocol/types.ts and constants.ts
--   Protocol.Base58, Protocol.Preimage, Protocol.Encoding   src/lib/protocol/encoding.ts, with the
--     preimages of transfer.ts in Protocol.Preimage
--   Protocol.Address     taddr.ts and address.ts of src/lib/protocol: validateDestination
--   Protocol.Transfer    src/lib/protocol/transfer.ts: records, signatures, hash locks
--   Protocol.Ownership   src/lib/protocol/ownership.ts: State (types and order), Replay (checks and the
--     loop of resolveOwnership), Steps (what one record can do, as a relation), and the proofs
--   Protocol.Validate    src/lib/protocol/validate.ts: validateBurn, validatePublication, acceptIssuance
--   Protocol.Ledger      src/lib/protocol/ledger.ts: rebuildLedger
--   Zcash.Script         src/lib/zcash/script.ts, and the script parser of inscription.ts beside it
--   Zcash.Fees           src/lib/zcash/fees.ts, with compactSize of transaction.ts
--   Zcash.Demo           src/lib/zcash/demo.ts: the in-process chain with its escrows; Runs lists its operations
--   Protocol.Hash160     src/lib/protocol/hash160.ts: RIPEMD-160, which a test runs on "abc"
--   Protocol.Secp256k1, Protocol.Tsig   secp256k1.ts and tsig.ts of src/lib/protocol: the curve, and the
--     signatures of a transparent address; a test decodes the generator
--   Action, Mode, Store   code that changes objects and can throw, src/lib/mode.ts, and the rows of
--     src/lib/store/types.ts
--   Modules.Wallet, Modules.Listing, Modules.Settlement   wallet.ts, settlement.ts and the demo publisher
--     of publisher.ts in src/lib/modules; Stages and Keeps are about one listing, Sales about its records
--     in the replay, Claims about its payment
--   Indexer              src/lib/indexer/index.ts: indexChains over Protocol.Ledger and Protocol.Ownership
--   Market               src/lib/market.ts: the requests that change the store, one after the other
--   Wallet.Nonce         src/lib/wallet/nonce.ts: the nonces of the connect messages
--
-- A record that is read from the chain is looked up in the artifacts by its hash, checked against the
-- stamp it names, and applied to that stamp; validateBurn decides which stamps there are.
--
-- Functions keep their names in snake case. An exception and a `null` are `none`, and a result with a
-- reason is a data type without the English message. Objects that the source mutates are values that
-- a step replaces. Third-party and node functions are fields of Protocol.Crypto.Crypto: SHA-256,
-- ed25519 and bs58, about which no theorem assumes more than its own hypotheses say. Amounts, heights
-- and sequences are natural numbers; the widths of the encodings (u16, u32, u64) are written out.
-- Loops are recursions over the list they read; decimal and base58 digits recurse on fuel that bounds
-- the number itself, the script parser on the length of the script, of which each turn takes a byte,
-- and modPow, modInv and pointMul on fuel above the exponent, the remainder and the scalar, which
-- each turn halves or lowers.
--
-- Not modelled: network, database and file I/O, the React pages and API routes, SHA-256 and BLAKE2b, the
-- Solana launch code, the Zcash transactions, inscription envelopes and their index, the
-- jobs, the sales read-out and the wallet sessions.
pub mod Wallet
pub mod Market
pub mod Indexer
pub mod Modules
pub mod Store
pub mod Mode
pub mod Action
pub mod Prelude
pub mod Text
pub mod Sort
pub mod Bytes
pub mod Protocol
pub mod Zcash
