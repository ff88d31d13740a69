-- ===== src/Lib.antt =====
-- The verification library of the zero-trust access gateway, an Express/NestJS middleware that
-- authenticates each request, scores and authorises it, writes an audit entry, forwards it to an
-- upstream and filters the answer. Paths below are from the repository's root.
--
-- Parts and files:
-- - Gateway: src/gateway. The context and the services that the stages call (Gateway), the
--   thirteen stages (Gateway/Stages, Stages/Pow for hashcash.stage.ts, Stages/Mfa for
--   mfa-promotion.stage.ts), and the orchestrator, writeOutcome, handleTerminalError and `use`
--   (Gateway/Middleware). The services are a record of operations on one abstract state. A world
--   pairs that state with a log of the calls and their answers, and a log of counters and events;
--   the logs are the model's own, and the code reads neither. Gateway/Protocol is a specification
--   apart from the stages: the phases of a request as a relation on logs of calls, with
--   Protocol/Endings the replies and errors that it can end with and the calls before each.
-- - Policy: src/policy. Threat is threat-escalation.service.ts (its fields are the record Threat,
--   its listeners `record_signal`), Evaluator is `evaluate` of policy-evaluator.service.ts, and
--   Rules its administration with policy-admin.controller.ts.
-- - Auth: src/auth/auth.service.ts; Auth/Routes is jwt-auth.guard.ts, roles.guard.ts and
--   auth.controller.ts.
-- - Trust: src/trust-score. Trust is trust-telemetry.repository.ts as two tables, Trust/Signals
--   the rules and the providers, Trust/Score `evaluateScore`; Trust/Range and Trust/Learning are about them.
-- - Honeypot: src/honeypot/shadow.controller.ts and src/fingerprint/ja4h.middleware.ts with
--   ja4h.util.ts, on the fingerprint store of Stores; Honeypot/Blocked joins them with Trust/Score.
-- - Hashcash: src/hashcash. Util is hashcash.util.ts, Service is hashcash.service.ts.
-- - Stores: the stores in memory. Nonces is src/hashcash/used-nonce-store.ts, Revocation is
--   src/auth/token-revocation.service.ts, Fingerprints is src/fingerprint/fingerprint.store.ts.
--   JsMap is the JavaScript Map that they use, an association list in the order of insertion.
-- - Mfa: src/mfa/mfa-challenger.service.ts with its three repositories as tables (Mfa/Demo is its
--   shortcut for demonstrations). Mfa/Totp and Mfa/Base32 are src/shared/totp.util.ts. Mfa/Pending
--   is enrollment.store.ts, Mfa/Enrollment is mfa-enroller.service.ts, whose confirmation
--   Mfa/Enrollment/Steps states as a relation; Mfa/Controller is mfa.controller.ts.
-- - Proxy: the field filter of src/proxy/bopla.interceptor.ts on JSON values; Proxy/Registry, Dns,
--   Headers, Retry and Forward are service-registry.service.ts, dns-rebinding.guard.ts and
--   proxy.service.ts with response-validator.ts.
-- - Audit: src/audit/audit.service.ts and src/gateway/pipeline/record-with-timeout.util.ts.
-- - Request: the request, src/shared/request-context.util.ts and src/gateway/public-paths.ts.
-- - Common and Int hold what the parts share; Tests runs the theorems at concrete inputs.
--
-- Conventions. Scores and thresholds are natural numbers of millionths, so rounding of floats and
-- NaN are not modelled. `now` is the clock of a call, read once. A method that changes state takes
-- the state and returns it. What throws returns a value that says so. The listener of POLICY_DENY
-- runs at once, as the event bus calls it; the other events are only logged. Requests are followed
-- one at a time, and a name has one address for the DNS guard and for the request that follows it;
-- between two calls of a store, other calls may come in any order where a theorem
-- says so. Headers are one text each, `trim` knows the white space of ASCII, and the numbers of a
-- challenge's payload are natural numbers. Every loop is a recursion on a list, a text, the
-- number of attempts left, or the bits of a byte; the inner loop of base32 has rounds to spare, as
-- three are allowed and twelve bits take two.
--
-- Parameters. Casbin, the JWT library, hashing, HMAC, AES-GCM, base64url, JSON, URLs, the look-up
-- of names, axios, the circuit breaker, the glob matcher, the audit repository, floats, random
-- values and the clock are parameters; a theorem that relies on one names what it relies on. The
-- pipeline takes its services from its interface, and the challenger takes the check of a code
-- from its library; their models stand in the files above.
--
-- Not modelled: log lines and metrics beyond the counters in the models, the constant texts of the
-- decoys, the parsing of the registry and of the policy files, the certificates of mTLS,
-- configuration loading and start-up. They are text, I/O or calls of a library.
pub mod Audit
pub mod Auth
pub mod Common
pub mod Gateway
pub mod Hashcash
pub mod Honeypot
pub mod Int
pub mod JsMap
pub mod Mfa
pub mod Policy
pub mod Proxy
pub mod Request
pub mod Stores
pub mod Tests
pub mod Trust
