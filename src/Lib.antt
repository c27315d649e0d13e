-- ===== src/Lib.antt =====
-- Oshioki approves sudo commands, sudo sessions and tool prompts with a browser authenticator or a
-- native device. A hook on the host builds a request, seals it to every pinned device and sends it; a
-- device opens it and signs a challenge over its bytes; the hook verifies the decision against the pinned
-- record, and then passes a last gate on the registry of devices under its lock, which a revocation
-- closes. The server keeps the sealed requests and the decisions in SQLite and passes them on over NATS.
-- This library models the crate protocol/, the registry of hook/ with what the hook makes of a decision,
-- and the server's store with its verdict worker.
--
-- Base holds lists, texts as UTF-8 bytes, big-endian words, i64 arithmetic with its saturation and
-- overflow (Base/Int) and fallible code (Base/Result). Protocol models protocol/src:
--   External    the other crates: base64, SHA-256, HMAC, P-256, X25519, ChaCha20-Poly1305, CBOR and JSON
--               are the fields of a record, and `Documented` states what is assumed of them
--   Encoding, Error       the decoding helpers at the end of v1.rs, and error.rs
--   Timing                `validate_request_timing` of v1.rs
--   Cbor, Cose            webauthn_v1.rs: the checks on CBOR values, and public keys
--   Device                v1.rs: device records, the registry and the configuration
--   Challenge             what devices sign: v1.rs, auth_v1.rs, tool_v1.rs and lib.rs
--   Request, Seal         v1.rs: command requests and envelopes, `seal_v1` and `unseal_v1`
--   Decision, Assertion   v1.rs, native_v1.rs, webauthn_v1.rs: `verify_deny_v1`,
--                         `verify_native_approval_v1` and `verify_approval_v1`
--   Enrollment            v1.rs, native_v1.rs and enrollment_v1.rs: from a submission to a record
--   Auth                  auth_v1.rs: sudo authentication
--   Tool                  tool_v1.rs: tool approvals
--   Socket                socket_v1.rs: the length prefix of a frame
--   Terminal              terminal.rs: how a text is escaped before a terminal shows it
-- Hook/Registry models hook/src/registry.rs with the phases of a revocation from hook/src/main.rs: the
-- file devices.json, and each transaction under the lock as one step with the outcome of its write.
-- Hook/Verdict models `apply_decision` and `first_valid_decision` of hook/src/main.rs. A candidate of the
-- wait is a decision with its clock readings, the outcome of its write, and, where the deadline passes
-- before it has been applied, the registry at that moment; any registry is allowed there.
-- Server models server/src/db.rs, the tables as lists of rows in `Db`; a call returns the next store or an
-- error, and an error leaves the store as it was, as a transaction that is rolled back does:
--   Tables        the rows, the constraints that an insert can violate, and the queries
--   Ingest        requests as they arrive in the three lanes
--   Decide        `queue_decision`, `queue_auth_decision`, `queue_tool_decision` and the queries by token
--   Enroll        enrollments, devices and their activation
--   Outbox        the outbox, the cleanup (two calls, one per lock), and the loop of `verdict_worker` in
--                 server/src/main.rs
--   Push          the rows of web push: enqueue, claim, retry, abandon
--   Calls         any of these calls in any order, since the lock of the connection orders them
--   Owner, Answers  the device that owns a request, and what its answer changes
--   Rows, Effects what a call can do to the rows of each table
-- The clock of the store (`unixepoch()`) is an argument of each call, as are random tokens. SQLite is
-- taken to fail only where a constraint of the schema says so; the writers of JSON are in `Codec`.
-- Types drop the suffix `V1` of the source, and functions `_v1`; a method takes the name of its type
-- where the source has several of one name (`validate_device`, `validate_envelope`).
--
-- Machine integers are natural numbers with their bounds where the code computes with them: a u32 counter
-- read from four bytes, a u64 epoch and u64 lengths below 2^64, i64 times. Nothing here runs on fuel: all
-- loops are by structural recursion, and the depth of CBOR values is bounded by 16 and their number by
-- 256, as in the source.
--
-- Not modelled: files, locks and their waits, sockets, NATS, HTTP, PAM and the user interfaces, which are
-- I/O; of the store, its migrations, the registration of push subscriptions and the worker of ntfy; the texts of error messages; serde's derived readers and writers, which are parameters, except the
-- reader of `ClientData` in Tool, whose field names matter. A random secret or nonce is an argument.
pub mod Base
pub mod Protocol
pub mod Hook
pub mod Server
