-- ===== src/Lib.antt =====
-- Nazar decides, for one instant payment at a time, between letting it pass, adding friction, holding
-- it, capping it and blocking it. This library models the Go service under go/: the decision engine and
-- what makes its decisions durable and accountable.
--
-- The parts and their files. The code's names stand in the model in snake_case, `Decide` as `decide`.
-- - Contract: go/internal/contract. Actions with the ladder, events, findings (`NewFinding` panics on an
--   empty explanation), feature vectors, profiles and decisions. An action that is none of the seven
--   constants is `other`.
-- - Rules: go/internal/rules/engine.go. `Evaluate` on a bundle whose CEL programs are parameters.
-- - Decide: go/internal/decide. Policy and Prevalence hold the bundles, Blocklist the exact map and its
--   refresh, Cost the cost table and the break-even search, Ladder the policy rails and advisories,
--   Engine the pieces of `Decide`, and Sequence `Decide` itself, with a swap of the policy by another
--   goroutine as an argument.
-- - Features: go/internal/features/compute.go, the feature vector of a payment, with math and strconv as
--   a parameter.
-- - Graph: go/internal/graph/engine.go, the payment graph and the ring signal; a walk runs on its hops.
-- - Novelty: go/internal/novelty/engine.go, the reservoir, its reference distribution and the p-value.
-- - Scoring: go/internal/scoring, the two scorers and the beta calibrator, which Engine has as functions.
--   The order in which a call of the hand-weighted scorer ranges over its weights is an argument.
-- - Audit: go/internal/audit/chain.go, the hash chain, with SHA-256 and json.Marshal as parameters.
-- - Consortium: go/internal/consortium, the tokeniser and the registry's lookup, retraction and
--   dispute; Reports is a report with its chain and wire format. The table is a list of rows; HMAC and
--   what the database driver answers are parameters.
-- - Wal: go/internal/wal/wal.go. The file is its bytes; what a call of the operating system answers is
--   an argument; the JSON codec is a parameter.
-- - Persist: go/internal/persist. Shipper models the bounded queue as moves of an interleaving, Alerts
--   which decisions raise an alert.
-- - Explain: go/internal/explain/trace.go, the replay of a persisted decision with its check of the audit
--   link; Replays joins it to Decide, Tamper to the log.
-- - Obs: go/internal/obs/latency.go, the ring buffer of latency samples.
-- - Fanout: go/internal/fanout/hub.go, the broadcast and the loops of the connections as moves of an
--   interleaving.
-- - Profile: go/internal/profile. Keys and Helpers are the files of that name, Loads is Load with its five
--   jobs, Updates is Apply as the commands that it sends, with the sums that Load makes of them in
--   Updates/Sums, Idempotency the stored decisions, Fake the store for tests. What Redis answers is a
--   parameter, and so are strconv and base64.
-- - Server: go/cmd/nazar/server.go, handlers.go and handlers_consortium.go, with
--   go/internal/decide/deadline.go: the decision path from the body of a request to the answer, and the
--   asynchronous lane. Events are the helpers of handlers.go, Advisories those of handlers_consortium.go;
--   Tuning is handlers_policy.go, with go/internal/persist/replay.go: the Policy Studio's candidate, its
--   replay and its way into the slot. Outage joins Load to the decision path.
-- - Base holds what the parts share, Tests concrete inputs.
--
-- A request comes to the server's `handle_decide`; `decide_and_persist` looks its id up in the
-- idempotency store, and otherwise Compute makes the feature vector that `Decide` scores. `Decide` reads
-- the rule engine, the blocklist and the policy slot, the scorer and the calibrator, the graph's result
-- and the consortium's advisories, and returns a decision, to which the novelty engine adds a finding.
-- Append of the log stamps it with the next link of the chain and writes it; the store keeps it, the hub
-- broadcasts it, and a goroutine is started that hands it to the shipper, and the payment to the graph
-- and to the novelty engine. The shipper takes it to the database, whose sink raises an alert for it. The
-- consortium's chains are those of Audit, one per reporter. A request is one step of the server, so
-- two requests do not overlap; a waiting goroutine is another step, and they may run in any order.
--
-- Conventions. A float64 is a type F with the operations of `Float64`, whose laws are hypotheses where a
-- theorem needs one. An int64 is an integer whose sums are wrapped at 64 bits. A Go map is an association
-- list, and its iteration goes in the order of the list, or in an order that is an argument. Code that
-- may panic returns a `Run`. Locks make an operation one step. Loops are structural; the break-even search
-- runs on fuel 28, since 27 halvings take its range of 100,000,000 to nothing, and its theorem says that
-- it never runs out.
--
-- Not modelled: other SQL and the Redis commands, the HTTP handlers that render answers, bundle files,
-- the texts of narrate and explain (those of a trace as well), the prediction of the third-party tree
-- ensemble, and bringing the service up.
pub mod Base
pub mod Consortium
pub mod Contract
pub mod Rules
pub mod Decide
pub mod Graph
pub mod Novelty
pub mod Scoring
pub mod Explain
pub mod Features
pub mod Audit
pub mod Wal
pub mod Persist
pub mod Obs
pub mod Fanout
pub mod Profile
pub mod Server
mod Tests
