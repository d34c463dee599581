-- ===== src/Lib.antt =====
-- Verification of bek, a control plane for agent runs: its worker queue, and of its core
-- package the access policies, the roles, the decisions of approvals, the deliveries that go out and
-- come in, and the identities and the memory of the agent; and the leases of credentials.
--
-- The queue is the class InMemoryWorkerQueue of packages/worker/src/index.ts. API and schedulers
-- enqueue run attempts, workers claim them under leases, renew the leases and settle them; a run may
-- pause for an approval, be retried, be cancelled or end as a dead letter. Every operation writes
-- events, whose text is redacted by packages/core/src/security.ts.
--
-- Common: lists, options, tests and JSON values; `sort_with` is the stable sort of an array.
-- Core/Security: `redact_unknown` is redactUnknown, on the two functions of a `Redactor`;
--   Security/Patterns has those of the source, redactSecrets and isSensitiveFieldName, with their
--   regular expressions, for what the platform does with one, which is the record `TextEngine`.
--   Security/Hiding says what redaction leaves.
-- Core/Policy: grants, bundles and `evaluate_policy`, which is evaluatePolicy of
--   packages/core/src/policy.ts. Policy/Resources says which resources a grant covers,
--   Policy/Verdicts what a request is decided by, Policy/Overruling what more bundles change, and
--   Policy/Exact which grant goes first.
-- Core/Rbac: the scopes of the roles; Rbac/Requests has requiredScopeForRequest, with its regular
--   expressions as functions on texts, and the check of apps/api/src/app.ts; Rbac/Roles says what
--   the narrow roles may do. Both are of packages/core/src/rbac.ts.
-- Core/Store: decideApproval of packages/core/src/store.ts on the parts of a snapshot that it
--   touches; Store/Decisions says who may decide, and Store/Once how often.
-- Core/Store/Creation: createRun of the same file, which gates a run by the policy; Creation/Inputs
--   has its input, Creation/Outcomes names what may become of a run, Creation/Gate is about the gate,
--   Creation/Runs about the whole.
--   Store/Payloads has the runs, approval requests and hashes of packages/core/src/runs.ts, and
--   Payloads/Canonical what a hash depends on; Store/Settings has the profiles that a run is given.
-- Core/Outbox: the outbound deliveries of packages/core/src/store.ts, from queued to delivered or
--   failed; Outbox/Lifecycle has their attempts, Outbox/Keys the sequences of calls, Outbox/Stands
--   what a call keeps of a delivery, Outbox/Calls what sequences keep, and Outbox/Due what is sent
--   next. The order of the texts of instants, localeCompare, is the parameter `InstantTexts`.
-- Core/Ingress: the ingress deliveries of packages/core/src/store.ts, by which repeated deliveries
--   are recognised; Ingress/Lookups has what is found after each operation.
-- Core/Access: the administration of bundles and grants of packages/core/src/store.ts, as operations
--   on the parts of a snapshot that they touch. Access/Resources has the normal form of a grant's
--   resource, Access/Bundles and Access/Grants the operations, Access/Sound and Access/Changes the
--   invariant of a bundle, Access/Kept and Access/Steps what sequences of operations keep of it, and
--   Access/Asking what follows for evaluatePolicy.
-- Core/Sessions: session tokens, createSessionToken and verifySessionToken of
--   packages/core/src/sessions.ts; Sessions/Payloads says which JSON values are payloads,
--   Sessions/Tokens which tokens are accepted.
-- Core/Identity: the identity that the agent acts through in a place, resolveAgentIdentity and
--   canInvokeAgent of packages/core/src/identity.ts. Identity/Isolation has identities that share
--   nothing with the workspace, Identity/Invocation who may invoke the agent; Identity/Defaults derives
--   the identities of an organisation.
-- Core/Memory: the chunks of memory that a place is given, selectInjectableMemoryChunks of
--   packages/core/src/memory.ts. Memory/Access has the test of one chunk, Memory/Isolation what is
--   selected for a place whose identity is resolved by Core/Identity.
-- Credentials/Broker: the class InMemoryCredentialLeaseBroker of packages/credentials/src/leases.ts,
--   which leases credentials; Broker/State has its state, Broker/Calls its calls and sequences of them. Credentials/Types and
--   Credentials/Audit have its types and audit references, from types.ts and audit.ts beside it.
--   Credentials/Grants has leases whose status is a function of the time, Credentials/Promises what a
--   call may do with them, Credentials/Represents when a lease of the broker stands for one, and
--   Credentials/Refinement that the broker keeps the promises.
-- Credentials/Health: deriveCredentialHealth of packages/credentials/src/health.ts.
-- Worker/Types: the types of the queue, with RunWorkItem and RuntimeResult of
--   packages/runtime/src/index.ts and ApprovalRequest of packages/core/src/types.ts.
-- Worker/Attempts: the table of attempt transitions, the retry policy and its delay.
-- Worker/State: the fields of the class as the record `Queue`, and the private steps: emit,
--   transitionRecord, findByLeaseId. Worker/Leases, Enqueue, Settle, Cancel, Approvals and Snapshots
--   have the operations under their names in snake case; Worker/Commands has one function over all
--   of them, `perform`, and sequences of calls, `run`.
-- Worker/Evolution: the relation `Evolves` of what operations may do to a queue; Worker/Runs shows
--   each operation to be in it; Worker/Safety draws the invariants from it. Worker/Behaviour says
--   what operations do on their branches. Worker/Tests has runs at concrete inputs.
--
-- An operation takes the queue and returns its outcome with the new queue. What it throws is the
-- outcome `threw`, with the queue as it was left. A reference to a record of this.records is its
-- index. The reading of the clock is an argument of each call. Instants are their numbers of
-- milliseconds, and durations are natural numbers, so a negative duration is the duration 0, which
-- the code treats alike. The identifiers' factory is a function of the prefix and of the count of
-- identifiers made. Instants have no bound, where addMs of the worker throws a RangeError outside
-- the range of Date. A missing decidedByPrincipalId is JSON null in the data of an event.
--
-- The loops of requeueExpiredLeases and cancelRun run on as many rounds as there are records, and
-- cancelRun passes over the records that its filters leave out. `decimal` runs on
-- n + 1 rounds for n, which has no more digits.
--
-- Not modelled: the event sink, which only receives copies; the stores of snapshots, the runtime
-- worker and the other packages; texts that are no dates, other than as the expiry of a credential.
-- Of the store: principals, connector installs, and the making and changing of places, whose names
-- are compared without regard to case over all of Unicode; times of deliveries given in another format
-- than that of toISOString. Of the API: the bypass of public callbacks before the check of a role.
mod Common
pub mod Core
pub mod Worker
pub mod Credentials
