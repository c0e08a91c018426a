-- ===== src/Lib.antt =====
-- Polka Storage: the pallets of a parachain on which clients buy storage from storage providers.
--
-- The program's core is two pallets. The market (pallets/market/src) keeps the balance table, which
-- says what every account has deposited and locked, and the deals between clients and providers:
-- deals are published, activated in sectors, settled, and terminated or slashed. The storage
-- provider pallet (pallets/storage-provider/src) keeps, for each provider, the sectors that hold the
-- deals: they stand in partitions, the partitions in deadlines, and each partition has a queue that
-- says when its sectors expire. It calls the market when sectors are activated or terminated. Both
-- act on calls that accounts sign, and at the end of each block. The faucet (pallets/faucet/src)
-- is a third pallet, which hands out currency on a test network.
--
-- Files, and the code that they are about:
--   Base, Base/*        shared names, lists and Boolean tests over the native numbers; Base/Storage
--                       is the runtime's StorageMap, Base/Words is u64 arithmetic, which wraps
--   Btree, Btree/*      BTreeSet and BTreeMap with number keys; Btree/Bounded has the operations of
--                       the bounded collections as parameters, with what their crate documents;
--                       Btree/Map/Sizes counts what the sets of a map hold
--   Market/Types        data of pallets/market/src/lib.rs and error.rs, and primitives/src/pallets.rs
--   Market/Monad        calls that change the state and may fail; children: what they keep, and what
--                       a call that returned tells of its steps
--   Market/State        Config and the storage items
--   Market/Funds        add_balance, withdraw_balance, perform_storage_payment, unlock_funds,
--                       lock_funds, slash_and_burn; children: what they do to the balance table
--   Market/Settle       settle_deal_payments; children: what settlements pay, one or two of them
--   Market/Validate     validate_signature, sanity_check, validate_deals, proposals_for_deals and the
--                       checks of activation; children: what passes the checks
--   Market/Publish      publish_storage_deals
--   Market/Activate     verify_deals_for_activation, activate_deals
--   Market/Terminate    on_sectors_terminate; Terminate/Payment: what it pays
--   Market/Finalize     on_finalize
--   Market/Solvency     what each call does to what the market owes and holds; Solvency/History: any
--                       history of calls that move funds, and of on_finalize
--   StorageProvider/Outcome, Sector
--                       error.rs and sector.rs of pallets/storage-provider/src
--   StorageProvider/ExpirationSet, ExpirationQueue, ExpirationQueue/*
--                       expiration_queue.rs; Removal/Origin and Removal/Kept are about what it
--                       removes and what stays
--   StorageProvider/Partition, Partition/Termination
--                       partition.rs; the other children are about its sets and its limits
--   StorageProvider/Deadline, Deadline/Filling, Deadline/Expiry
--                       deadline.rs, its type Deadline; the other children are about its loops
--   StorageProvider/DeadlineInfo
--                       deadline.rs, its type DeadlineInfo; DeadlineInfo/Windows is about its windows
--   StorageProvider/Deadlines
--                       deadline.rs, its type Deadlines
--   StorageProvider/Assignment
--                       deadline/assignment.rs; children: its order, and what it assigns
--   StorageProvider/SectorMap
--                       sector_map.rs; SectorMap/Declared is about what the groups hold
--   StorageProvider/State, State/Assign, State/EarlyTerminations
--                       storage_provider.rs; the other children are about its periods, its limits and
--                       the deadlines that stay as they are
--   StorageProvider/Pallet
--                       Config, the storage items and the events of lib.rs
--   StorageProvider/Pallet/Monad
--                       calls that change the pallet's state and may fail; Monad/Holds: an invariant
--                       and a postcondition through the steps of a call
--   StorageProvider/Pallet/Checks
--                       the checks of the extrinsics, slash_and_burn, validate_seal_proof,
--                       get_randomness; assign_proving_period_offset of proofs.rs
--   StorageProvider/Pallet/Register, PreCommit, Prove, Post, Declare, Terminate
--                       the extrinsics of lib.rs, with process_early_terminations
--   StorageProvider/Pallet/Hooks
--                       on_finalize with check_precommited_sectors and check_deadlines
--   StorageProvider/Pallet/Views
--                       current_deadline, deadline_info and deadline_state of the runtime API
--   StorageProvider/Pallet/Grouping, Expiration, Access
--                       about the grouping of declarations, the check of expirations and who may call
--   StorageProvider/Pallet/Deposits, Deposits/*
--                       the deposits of pre-committed sectors: what each call does to them, and any
--                       history of calls
--   Primitives/Randomness
--                       primitives/src/randomness.rs and derive_prover_id of primitives/src/proofs.rs;
--                       Randomness/Separation is about the bytes that are hashed
--   Faucet              pallets/faucet/src/lib.rs, its call drip; Faucet/Rate is about how often it
--                       drips
--   */Examples          the theorems at concrete inputs
--
-- Conventions. Account ids, deal ids, block numbers and hashes are natural numbers; Balance is u128
-- and BlockNumber is u64, as the runtime sets them, and unchecked arithmetic wraps, as it does in a
-- release build. A market call takes the market to a result and the market after it, since what was
-- written before a failure stays until the extrinsic is rolled back. The methods of the storage
-- provider return the new value with their result, since their callers drop a value whose method
-- failed. In check_deadlines alone a partition's failed record_faults is followed by the next
-- partition: there the model keeps the partition as it was, while the code may have changed a part
-- of it. usize is 64 bits wide. A failed expect, unwrap or assert, an index out of range and a
-- remainder by zero are the result panic. A signed origin is the account that signed, and the
-- current block is an argument.
--
-- Parameters. The currency, the signature check, the encoding, the hash, the registry of providers,
-- compute_commd and the parsing of CIDs are fields of the market's Config. The storage provider
-- pallet has a Config too: the currency, the market, the proofs pallet and the history of randomness
-- act on a state of their own, Chain, which is any type; hashes, encodings and the parsing of
-- commitments are functions. The faucet's Config has its currency. The bounded collections are the
-- fields of Bounded, with the behaviour that their documentation states.
--
-- Fuel. Only the loop of Deadline::add_sectors takes fuel: one round for each partition, two for
-- each sector, and one. The results say that it is enough if a partition has room for a sector.
--
-- Not modelled: the commitments of pieces and the proofs, which are over third-party hashes and
-- cryptography; the randomness pallet, and validate_unsigned of the faucet; the archive library
-- (mater); and the node, the servers and the command lines, which are input and output around the
-- pallets. Of the storage provider pallet everything is modelled, but its market is the interface
-- that it calls, not the model of the market pallet. Weights and logging are left out everywhere.
pub mod Base
pub mod Btree
pub mod Faucet
pub mod Market
pub mod Primitives
pub mod StorageProvider
