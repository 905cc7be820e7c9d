-- ===== src/Lib.antt =====
-- Darm-Guard: a broker that executes an agent's file and network actions only after a decision
-- kernel admits them, with a hash-chained audit log as evidence, and a smaller guard that checks
-- tools against a credential.
--
-- The parts, with the files that model them. Paths of the code are from the repository's root.
--
--   Prelude     tests, lists, texts, dictionaries and results that the other files share
--   Path        darm_guard/broker.py: path_in_normal_form, _open_parent's split, _prefix_problem
--   Json        the JSON values that a message is read from
--   Proposal    darm_guard/broker.py: parse_proposal, and the message of BrokerClient.propose
--   Registry    darm_guard/broker.py: _split_registry, BrokerConfig.registry_for, _check_prefixes,
--               assign_prov, canonicalize
--   Audit       darm_guard/broker.py: AuditLog; darm_guard/evidence.py: chain_problems
--   Attest      darm_guard/attest.py: KeyRing; darm_guard/broker.py: _check_attestation,
--               _broker_verdict, _vouched, _read_verdict
--   Checkpoint  darm_guard/checkpoint.py: make_checkpoint, check_log, Checkpointer
--   Intent      darm_guard/broker.py: _parse_intent, _order_intents, _intent_fits,
--               _premise_problem; Intent/Store: _refresh_intents, _persist_intents,
--               _settle_and_record, settle_reserved and the reservation in Broker._handle
--   Kernel      darm_guard/kernel.py: KernelClient.decide
--   Decision    darm_guard/broker.py: Broker.decide, over the parts above
--   Keys        darm_guard/broker.py: the idempotency keys of Broker._handle
--   Journal     darm_guard/broker.py: the records of _record as they are read, _latest_entries
--   Host        darm_guard/broker.py: _observe, _read_attestation
--   Execute     darm_guard/broker.py: _execute
--   Handle      darm_guard/broker.py: Broker._handle, over the parts above and below
--   Recovery    darm_guard/broker.py: Broker._recover_rename; Recovery/Pending: reconcile_pending
--   World       darm_guard/broker.py: verify_world, retire_legacy_secret, reattest_legacy
--   Effect      darm_guard/broker.py: _renameat2, _cas_replace, _cas_delete, _rename_protocol
--   Reconcile   darm_guard/broker.py: _intended_state, _reconcile
--   Fetch       darm_guard/http_get.py: address_refused, credential_for, fetch
--   Compare     darm_guard/verify.py: verify; Compare/Gates: allow_all, darmguard_v01, and
--               darm_guard/coverage.py: cases, coverage, kernel_adapter
--   Guard       darm_guard/types.py, checker.py, session.py, guard.py
--
-- A message goes through Proposal, Path, Registry, Intent and Kernel to a decision, which Decision
-- composes; Keys decides whether it is a retry; an effect goes through Execute to Effect or Fetch;
-- its outcome is judged by Reconcile, which settles the intent, and is recorded. Handle composes
-- all of this, Recovery repairs what a crash leaves of it, and World checks the files against the
-- log. Audit chains the log, and Checkpoint publishes its head. The log of Handle, Recovery and
-- World is the list of its records as Journal has them, oldest first.
--
-- Parameters stand for what the code calls and does not define: SHA-256, the HMAC of version 1,
-- Ed25519, the kernel process, the network and Python's sort; and, since it is not modelled, for the
-- normal form of URLs. Where a theorem needs one of them to be free of collisions, or
-- a signature to be correct, that is a hypothesis. Parameters of Host are the walk over
-- directories, the decoding of a file's text and of an attestation's bytes, and whether a verdict
-- can be appended. The errors that Broker._handle and reconcile_pending do not catch leave them in
-- the model too: no renameat2, a workspace that cannot be opened, bytes that are no text, and, of
-- reconcile_pending, an append that fails.
-- A line of the log is blank or a JSON object with the fields that are read; its time is absent, a
-- number or a text that is no time.
--
-- Not modelled: sockets, locks, fsync and crashes other than those of a rename, the walk of
-- _open_parent over directories, texts of messages to persons, http_get's normal_url, the
-- generator of scenarios, the command line, the adapters, the deployment and the
-- scripts.
pub mod Prelude
pub mod Path
pub mod Json
pub mod Proposal
pub mod Registry
pub mod Audit
pub mod Attest
pub mod Checkpoint
pub mod Intent
pub mod Kernel
pub mod Decision
pub mod Keys
pub mod Effect
pub mod Reconcile
pub mod Fetch
pub mod Guard
pub mod Compare
pub mod Execute
pub mod Handle
pub mod Host
pub mod Journal
pub mod Recovery
pub mod World
