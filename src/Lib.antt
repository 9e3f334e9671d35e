-- ===== src/Lib.antt =====
-- A model of credential-proxy, the service that hands out KeePass credentials to scripts after an
-- approval in a Matrix room, and keeps them out of LLM traffic by tokens.
--
-- The parts and the files that model them:
-- * Registry (_registry.py): the registered callers, their indexes, the automatic approval, the
--   rate limit, changed hashes; Registry/Store is the file. One function for each method; each is
--   one critical section under `self._lock`, as a function from the state to the state.
-- * Token, Substitute, Decimal (_token.py): the tables of secrets and tokens (`_register_secret`,
--   `_maybe_register`), the replacement that `_redact` and `_restore` perform, and their caches.
-- * PiiTokens (_token.py): the tables of personal data, `GlobalPiiTokens.register` and `clear`.
-- * JsonWalk (utils/json_walk.py, _token.py): the walk over the texts of a JSON value, and the
--   redaction and restoration that use it.
-- * Proxy (proxy.py): the state that the mixins share. An `asyncio.Event` is a number.
-- * Unlock (_tpm.py, _credential.py): `_do_unlock` and `_auto_unlock`.
-- * Matrix (_matrix.py), Reactions (_sse.py): `on_text` and `on_reaction`.
-- * Credential (_credential.py): Credential/Flow is `handle_credential` from the checks to the
--   decision, Credential/Query is `_query_and_return`, Credential/Serve puts them and
--   `_handle_auto_approve` together, Credential/Registration has the handlers that register and
--   revoke callers.
-- * Pii (_pii.py): the detector, `scan_spans` in Pii/Scan and Pii/Custom, the choice among spans
--   that overlap in Pii/Choose, `detect_and_redact` in Pii/Replace, the check digits and the
--   addresses in Pii/Checksum and Pii/Address.
-- * Admin (_admin.py): `_RateLimiter` in Admin/Limit, `_SseRegistry` in Admin/Streams, the
--   handler in Admin/Handler.
-- * Audit (_audit.py): `is_external_host`, `_normalize_dotdot` in Audit/Dotdot, `audit_tool_call`
--   and `_audit_log_event`.
-- * Approval (_llm.py, _audit.py): `_request_audit_approval`, the sweeper, the cleanup of a
--   request; Approval/Calls is `_audit_openai_tool_calls`.
-- * Hold (_llm.py): `_split_safe_hold`, which cuts a streamed text, with `_custom_tail_hold_run`,
--   `_pii_tail_hold_run` and `_strip_token_forms`; Hold/Tail is about what `$` finds.
-- * Metrics (_metrics.py): Metrics/Aggregate is `incr_event` with the synchronous hooks in its
--   child Sync, on the tables of Metrics/Counters; Metrics/Queue is `_enqueue` and
--   `_drain_queue` with `_write_flush`, Metrics/Kind has `sanitize_kind` and `metrics_bucket`.
-- * Prelude has texts as lists of character codes, and insertion-ordered dicts as association
--   lists.
--
-- How they interact: a request is checked, then approved automatically by the registry or by a
-- reaction in the room, the database is queried, and the secrets in the answer become tokens. A
-- handler is cut at its awaits. What other tasks do during an await is a function on the state
-- that the theorems quantify over; Credential/Release takes all sections of all handlers in any
-- order as a relation. The ids, the clocks, the digest of the file, the unsealed password, what
-- PyKeePass finds and how a wait ends are arguments. The acquisition of a lock is no cut point. A
-- wait for the approval of a tool call may be cancelled; a handler that waits in the room is not. A
-- write of the registry's file may fail in `handle_register_caller`, and succeeds elsewhere.
--
-- The texts of LLM traffic pass the detector before the redaction of secrets; what `re` and
-- `ipaddress` find in a text is an argument, and the theorems ask that matches stand in it. A
-- tool call that the audit denies may be approved by a reaction in the same room. The dashboard
-- shares no state with the release of credentials.
--
-- Bounds and fuel: times are natural numbers of milliseconds, in the dashboard of seconds.
-- `sub_from` runs on the length of the text, which is enough since a key is not empty; `decimal`
-- runs on the number itself. The token tables hold 5000 entries at most, as in the code, and
-- those of personal data 1000. The search for a free number has one step more than there are
-- numbers in use. The loop of `_normalize_dotdot` has as many steps as the text has characters.
--
-- Not modelled: the texts of messages and logs, HTTP and JSON parsing, the regular expressions of
-- the detector and of the audit, the rest of the streams of the LLM proxy (_llm.py), the storage
-- and the queries of the metrics, the start-up and the client in Go; they are I/O, or not reached
-- yet.
pub mod Prelude
pub mod Decimal
pub mod Reactions
pub mod Registry
pub mod Substitute
pub mod Token
pub mod Proxy
pub mod Unlock
pub mod Matrix
pub mod Admin
pub mod Audit
pub mod Approval
pub mod Hold
pub mod Credential
pub mod JsonWalk
pub mod Metrics
pub mod Pii
pub mod PiiTokens
mod Tests
