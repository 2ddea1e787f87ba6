-- ===== src/Lib.antt =====
-- A control plane that moves assets between Canton and EVM networks. Its core is a TypeScript
-- package, packages/core/src, from whose files the definitions of this library are translated:
--
-- - Model, Amount, Invariants: model.ts and invariants.ts, the vocabulary of bridge operations, the
--   decimal amounts as natural numbers, and the checks of an operation. Failures holds
--   registry-errors.ts.
-- - Transaction: transaction-engine.ts. The table `canTransition` is in States; the PostgreSQL store
--   is two lists of rows in Store, with the constraints of packages/core/sql/001_transaction_engine.sql
--   as tests that fail; `create` and `transition` of DurableTransactionEngine are in Engine.
-- - Supply: supply-invariants.ts. `assess` is in Assess, the store and the ledger in Store.
-- - Policy: policy-engine.ts. The assertions on a policy are in Definition, the engine in Engine, the
--   in-memory registry and the preflight facade in Registry.
-- - LockMint: lock-mint-coordinator.ts. The evidence store is in Evidence, the services that the
--   coordinator calls and its private methods in Coordinator, one function for each case of the
--   switch of `run` in Steps.
-- - Idempotency: idempotency.ts. The store of claimed keys over packages/core/sql/002_idempotency.sql
--   is in Store, the canonical JSON and the fingerprint of a request in Canonical, the coordinator of
--   writes and the destination facade in Writes.
-- - Saga: cross-network-settlement.ts. The requests and states are in States, the two stores (over a
--   map, and over the tables of packages/core/sql/009_cross_network_settlements.sql) in Store, the
--   service in Service. Graph describes the order of the states apart from the code.
-- - SameNetwork: same-network-settlement.ts. The requests, results and their checks are in
--   Settlement, the store over packages/core/sql/008_same_network_settlements.sql in Store, the
--   service in Service.
-- - Attestation: attestation-protocol.ts is in Protocol, the validator sets of
--   threshold-attestation.ts in ValidatorSets, its aggregator in Aggregator.
-- - Finality: finality-service.ts. The evaluation of an observation is in Evaluation, the checks in
--   Checks, the service and its store over packages/core/sql/004_finality_assessments.sql in Service.
-- - Identity: identity-registry.ts. The data, locators and messages are in Challenges, the registry in
--   Registry, with `verifyChallenge` in two parts around the wait for the verifier.
-- - Network: network-registry.ts. The check of a configuration and the in-memory registry.
-- - Asset: asset-registry.ts. The in-memory registry of assets and representations, over a registry
--   of networks that stays as it is.
--
-- The coordinator drives the engine: each round of its loop asks services for the evidence of one
-- stage, stores it, and moves the operation by one transition of the engine. Dict is the JavaScript
-- `Map`, Dates the language's `Date`, Exec chains actions on stored state, and Served is stored state
-- beside an outside world.
--
-- A call that fails is a value of `Result`. `db.transaction` keeps all writes of its body or none; an
-- advisory lock or a row lock makes a body one step, so concurrent callers are sequences of calls.
-- Timestamps and identifiers are texts, without the NUL characters and lone surrogates that PostgreSQL
-- refuses. In the tables of Transaction and Saga a timestamptz column takes the texts that the database
-- reads as a timestamp, a parameter, and an integer column takes 32 bits; a timestamp is read back as
-- it was written, where PostgreSQL may write it another way. A clock gives valid dates and does not
-- throw, but that of Saga may. What JSON and a jsonb column make of the response of a write is a
-- parameter of Idempotency; in the assessments of Finality confirmations that are NaN or infinite
-- become null. The services of the coordinator, the parsing of dates and of URLs, the discovery of
-- capabilities, the order in which a database returns rows and the text of a JSON document are
-- parameters.
-- The loop of `run` is a recursion on its own limit of 24 rounds. An operation makes at most 14
-- transitions and a state has one of 22 places, each transition leads to a later place, so 22 rounds
-- are enough. `execute` of the saga loops until a terminal state; its model takes rounds, and since
-- each round leads to a later of the 10 states that are not terminal or ends the call, 11 rounds are
-- enough.
--
-- A verification of an identity is two calls, before and after it waits for the verifier. The other
-- calls are taken one after another, also where they wait for a service.
--
-- Not modelled: the burn-release coordinator, generic attestations, the validator, reconciliation,
-- webhook, workflow, audit and emergency services of packages/core, the adapters and transports, the
-- REST API, the clients, and the contracts in Solidity and Daml. Error messages, the attempts table of
-- the engine, and the columns that the database fills by itself are left out too.
mod Prelude
pub mod Failures
pub mod Exec
pub mod Dates
pub mod Model
pub mod Dict
pub mod Amount
pub mod Invariants
pub mod Transaction
pub mod Samples
pub mod Supply
pub mod Policy
pub mod Idempotency
pub mod LockMint
pub mod Network
pub mod Saga
pub mod Served
pub mod SameNetwork
pub mod Attestation
pub mod Finality
pub mod Identity
pub mod Asset
