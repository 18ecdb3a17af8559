-- ===== src/Lib.antt =====
-- dev-health-go: the Go libraries that the services share. This library models their authorization
-- parts and the query settings.
--
-- The policy enforcement point (pep/) asks a policy decision point whether a principal may act. A
-- request (pep/request.go) is checked, marshalled and posted by the client (pep/client.go); the answer
-- is a strict JSON document (pep/strict.go, pep/wire.go) that becomes a decision with obligations
-- (pep/internal/decision/decision.go, pep/decision.go), and every failure is a local deny. The cached
-- client (pep/cache.go) keeps allows alone, behind one mutex. Repository keys (repokey/repokey.go)
-- stand in requests and in obligations. The token client (workloadtoken/) exchanges the deployment's
-- subject for a token, checks and caches it, and its transport puts it on the requests that the pep
-- client's HTTP client sends. The verifiers (authverify/) decide whether such a token is accepted, by
-- the keys that the key client (authverify/jwks_client.go) or a key document (authverify/jwks.go)
-- gives; the exchange service (authverify/workload_token_exchange_service.go) has tokens issued. The
-- query client (clickhouse/) turns bindings and options into the driver's.
--
-- Files, each with the code it models:
--   Base           the shared helpers: tests on native numbers, lists, byte strings.
--   Platform       the functions of the standard library that authverify/ and workloadtoken/ call.
--   RepoKey        repokey/repokey.go: body, ValidSlug, Valid.
--   Pep/Decision   pep/internal/decision/decision.go: Decision, Obligations, NewObligations, FromWire,
--                  Local; Reasons has the closed sets of reasons of pep/decision.go.
--   Pep/Json       pep/strict.go and the readers of pep/wire.go, on a document's tree.
--   Pep/Expiry     pep/strict.go: parseRevision, parseExpiry.
--   Pep/Request    pep/request.go: Request.valid, mintRequestID, wire, batchBody.
--   Pep/Wire       pep/wire.go: decodeDecision, decodeObligations, parseDecision, parseBatch.
--   Pep/Client     pep/client.go: New, Decide, DecideBatch, post, classify; Cached and CachedBatch
--                  have CachedClient.Decide and DecideBatch of pep/cache.go.
--   Pep/Cache      pep/cache.go: the critical sections (get, observe, InvalidateAll, Close, Len), one
--                  function each; Run has the histories of them.
--   Workload       workloadtoken/: New's limits (Config), one slot of Token and Invalidate (Slot), the
--                  key of a slot (RequestKey), the subject file (Subject), the exchange (Exchange), the
--                  reading of a token's text (Token), the transport (Transport).
--   Authverify     authverify/: the patterns and strict objects (Patterns, Document), the compact form
--                  and header (Compact), the claims of the three classes (Access, WorkloadToken,
--                  ServiceAccount), the verifiers and their Verify (Verifier, Class, Verify), key
--                  documents (Keys), their fetch (Fetch), the key client's cache (Jwks), the exchange
--                  service (Exchange), and the review of Kubernetes tokens (TokenReview).
--   Clickhouse     clickhouse/bindings.go and clickhouse/options.go.
--
-- State. A method that holds a mutex is a function from the state to the state and its result. What
-- other goroutines do is a sequence of such calls, or a step relation, between them. The clock's readings
-- are arguments, in nanoseconds, and nothing asks that they grow.
--
-- Numbers. A uint64 counter keeps its wrap-around (u64 in Pep/Cache); the theorems that order stamps ask
-- for fewer than 2^64 calls. Durations are naturals where the source refuses negative ones; where an age
-- could be negative the comparison is written as a sum.
--
-- Loops are structural. The one on fuel, bound of Pep/Cache, has the list's length as fuel, and each
-- round removes an element; the reader of array literals, which the round trip is stated with, gets the
-- number of values and one more.
--
-- Parameters. The transport, json.Marshal, the reading of bytes into a JSON tree, base64, Ed25519,
-- strings.EqualFold and TrimSpace, the parts of a URL, slices.Sort, strconv.Quote, SHA-256, and the
-- formatters of numbers and times are arguments; where a theorem relies on what one of them does, that is a
-- named hypothesis (IsStandard of Workload/Token/Accepted, KeepsAll of Workload/RequestKey/Injective,
-- KeepsTarget of Workload/Transport/Bare). That a number token of a JSON text is in range, and that one value is
-- the whole of it, is the reader's.
-- What opening a file, a fetch of keys and a server's answers give is data that the operations take.
--
-- Not modelled: the map of slots of the token client, the text form of retire_after, the
-- query client's calls of its driver, and llm/, readers/, schema/ and scripts/.
pub mod Base
pub mod Platform
pub mod RepoKey
pub mod Pep
pub mod Workload
pub mod Authverify
pub mod Clickhouse
