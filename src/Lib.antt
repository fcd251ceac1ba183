-- ===== src/Lib.antt =====
-- A verification library for sentoris-proxy, a proxy in front of language models: it routes a chat
-- request to a provider, holds it to a budget and to privacy rules, records the states that it goes
-- through, and keeps a signed trace of it.
--
-- The parts and how they interact
--   A request comes in at internal/transport/http/handler.go. Its headers become constraints, which the
--   evaluator decides on; the router finds a provider for the model; the budget store sets an amount
--   aside; the provider is called; and the trace, with the transitions that were recorded, goes to the
--   trace store. Hooks are called on the way. Breaker, retries and the decoder of event streams belong
--   to the clients of providers; the interceptor charges a stream chunk by chunk; Merkle trees prove
--   batches of signatures; the registry keeps the extensions and their dependencies. A stored
--   trace can be run again, and the differ makes a risk report of the two.
--
-- Which file models what
--   Prelude            Go's maps (association lists with one entry for a key, in the order in which they
--                      are iterated), slices, (value, error) results, package strings, and integers.
--   Audit/Merkle       internal/service/audit/merkle.go: build_levels is the loop of NewMerkleTree,
--                      path_up is findLeafNode with buildProof, proof_levels is computeRootFromProof.
--   Domain/Value       the values that an `any` of the program can hold, JSON's among them.
--   Audit/Signer       internal/service/audit/signer.go: what of a trace is signed, Sign and Verify.
--   Diff               internal/service/diff/differ.go: LevenshteinDistance (Levenshtein), the fields
--                      that differ (Fields), the score, the recommendation and Compare (Differ).
--   Domain/Trace       internal/domain/trace.go: the trace, its states, CanTransitionTo.
--   Domain/RiskReport  internal/domain/risk_report.go: the report and the operations that Compare uses.
--   Errors             pkg/errors/errors.go: codes, statuses, what is to be retried.
--   Extensions         internal/service/extensions/registry.go: registration, removal, versions.
--   Governance         internal/domain/constraints.go (Constraints); internal/service/governance:
--                      evaluator.go and the budget check of budget_service.go (Evaluator), the
--                      validation of constraints (Validation), stream_budget_interceptor.go
--                      (Interceptor), input_sanitizer.go (Sanitizer), PrivacyService (Privacy) and
--                      TokenizerService (Truncation) of budget_service.go;
--                      internal/service/deprecation/deprecation.go (Deprecation).
--   Hooks              internal/service/hooks/hooks.go: the chain, and the rate limiter.
--   Jcs                pkg/jcs/canonical.go: canonicalizeString and SanitizeResponse (Text),
--                      StripNonSignatureFields (Strip), and Canonicalize of a value.
--   Router/ModelRouter internal/service/router/model_router.go, with the provider store behind it.
--   Security           internal/service/security/key_manager.go: the pools of keys, the API keys.
--   Storage            internal/adapter/storage: MemoryBudgetStore (Budget), the interface of budget
--                      stores (BudgetStore), MemoryTraceStore (Traces), the memory store of providers
--                      (Provider), and the scripts of redis_budget.go (RedisBudget).
--   Transport          internal/transport/http: sentoris_headers.go (Headers), state_transitions.go
--                      (Recorder), handler.go and response_headers.go (Chat). Chat has the state of a
--                      request and the replies, Chat/Stages what is done to the trace and the budget,
--                      Chat/Handler the parts of handleChatCompletions in their order. Verifying has the
--                      two endpoints that check a signature, Replay is handleReplayEval, and Auth is
--                      middleware/auth.go.
--   Upstream           internal/adapter/upstream: the breaker (Breaker) and the client
--                      (FaultTolerant) of fault_tolerant_client.go, circuit_breaker.go (Gobreaker),
--                      sse_decoder.go (Sse).
--
-- How the code is read
--   A method that changes a receiver returns the new receiver, and a lock makes a method one step. An
--   amount of money, a float64, is an integer of a small unit that is named where it is used. The
--   memory budget store rounds each sum and difference as float64 arithmetic does, by a parameter of
--   which Storage/Budget/Rounding says what is relied on: it keeps zero and the order, and moves no
--   amount up to a limit by more than half of the distance of neighbours there. Its clients, the chat
--   handler and the stream interceptor, and every other component take sums and differences as exact.
--   A time is a number of nanoseconds. The clock, the providers, the hash function, the readers and the
--   layout of numbers and what lies behind an interface are parameters.
--   A trace store is given the trace as it is at a call; a store that keeps the pointer, as the one in
--   memory does, sees what is done to the trace later.
--
-- Bounds and fuel
--   build_levels and proof_levels of the Merkle tree have as fuel the number of nodes: a round halves
--   it, so the loop ends before. exchange_sort of the trace store has one unit for each place of the
--   slice. contains_from counts the places that the source's loop counts, and attempts the retries.
--   Every other loop is a recursion on its list or text. What the source has as an int is a number that
--   is not negative and small enough not to wrap; a limit or a count that could be negative says so.
--
-- What is not modelled
--   The SQL stores, configuration, logging, metrics, pages and commands, which are calls into
--   packages, and the Ed25519 signer, which calls the cryptography library. The endpoints of
--   the handler that encode what a store or the router returns, and the second reading of the headers in
--   middleware/headers.go, are code of this program that is left out. The chat handler takes the signer
--   and the masking as parameters, and the replay takes the signer and the comparison.
pub mod Prelude
pub mod Domain
pub mod Audit
pub mod Governance
pub mod Upstream
pub mod Storage
pub mod Router
pub mod Extensions
pub mod Errors
pub mod Hooks
pub mod Jcs
pub mod Diff
pub mod Security
pub mod Transport
