-- ===== src/Lib.antt =====
-- A verification library of runcell, which runs AI agents that share provider capacity. It models
-- the part that shares it, the concurrency limiter of the agent package; the check of the paths of
-- the files that an agent is given; the prompt and the files that a run makes of a chat; the stream
-- of chunks that a run sends to a chat's page; the translation of a Pi session's events; and the
-- stream that carries a provider's events once a request has its slot. A run asks a limiter for a
-- slot before each provider request (`acquire`), keeps it alive (`renew`) and gives it back
-- (`release`). The paths of a chat's attachments are checked as all paths of the workspace are.
--
-- The parts, and the files that model them:
--
-- Prelude: the names shared by all files, comparisons as Booleans (Tests), lists over native
-- numbers (Lists), signed integers (Int), objects and Maps as association lists (Maps), results
-- with an error (Results), texts as lists of code units (Texts), elements and texts inside others
-- (Infix).
--
-- Js: values that reach the code unvalidated.
--
-- Concurrency/Policy (packages/agent/src/concurrency-policy.ts): resolveConcurrencyLimits is
-- `resolve_limits`, its loop over the workloads `resolve_entries` with the body `resolve_entry`,
-- its choice of the default `resolve_default`; resolveWorkload is `resolve_workload`. Errors are
-- values that carry what their messages quote. Policy/Valid: the settings that validation returns;
-- Policy/Accepts: those that it accepts; Policy/Default: the default workload.
--
-- Concurrency/Grants (the same source): selectConcurrencyGrants is `select_grants`, which reads the
-- grants of `final`: `group` builds the queues, `consider` is one `for` loop over them, `grant` the
-- end of a round, and `allocate` the `while` loop. It runs on fuel, the free capacity at its start:
-- each round grants one slot, so the loop cannot run longer. Grants/Loop: the loop; Grants/Idle:
-- the waiters that it leaves; Grants/Round: the choice of one round; Grants/Capacity: the limits;
-- Grants/Waiting and Grants/Order: which waiters are granted, and in which order.
--
-- Concurrency/Limiter (packages/agent/src/concurrency-limiter.ts): createConcurrencyLimiter. The
-- state is `Limiter`: the Maps of slots and waiters, the time at which the expiry timer fires, the
-- sequence number, and the number of ids drawn. `create` is the validation of the options;
-- purgeExpired, toLease, armExpiryTimer and schedule have their names. Limiter/Operations: acquire,
-- renew, release, the abort listener (`on_abort`), the timer of a waiter (`on_wait_timeout`) and
-- the expiry timer (`on_expiry_timer`). Every one runs to its end on the event loop, so `handle` is
-- one of them and `run` a history of them at given times. The answers are events. Limiter/Stats:
-- `stats`, which is no part of a history. The proofs: Limiter/Slots and Slots/Back (slots against
-- the limits), Limiter/Give and Limiter/Rounds (handing out slots), Limiter/Schedule,
-- Limiter/Invariant and Limiter/Preserve (an invariant of all operations), and on histories
-- Limiter/Safety, Limiter/Served, Limiter/Answers, Limiter/Holding, Limiter/Queue and
-- Limiter/Timer; on `stats`, Stats/Reported and Stats/Inherited.
--
-- Concurrency/Permit (packages/agent/src/concurrency-controller.ts): createPermit, the slot of one
-- provider request. `Permit` holds the variables of its closure; `step` handles one timer, answer
-- of the limiter, release by the request, or end of the limiter's release; `start_renewal` and
-- `finish_renewal` are renew up to its call of the limiter and after it, `retry` its catch, `lose`
-- and `release_with` are lose and release. The listeners that an abort of the request calls act
-- through later inputs. Permit/Once: the release; Permit/Renewal: the renewals; Permit/Timely: when
-- they are due.
--
-- Paths (packages/agent/src/paths.ts): assertSafeWorkspacePath is `safe_path`, on text as a list of
-- code units: `split` and `join` are those of the language, `clean` is the loop over the segments.
-- Paths/Safe: what it returns.
--
-- UiStream (packages/agent/src/ui-message-stream.ts): createUIMessageChunkConverter. `Converter`
-- holds the variables of its closure; `opening` and `opened` are the chunks and the state of
-- openMessageAndStep, `closing` and `closed` those of closeOpenBlocks; `handle_part` is handlePart,
-- with its switch in `handle_kind`; `end` is finish and fail; `convert` is uiMessageStreamFromRun.
-- UiStream/Protocol: the order of the chunks; UiStream/Ends: the blocks that are ended;
-- UiStream/Content and UiStream/Faithful: what they carry.
--
-- Attachments (the same source): attachmentPath is `attachment_path`, with its loop in
-- `first_free`. Attachments/Messages: uiChatMessageText is `message_text`, uiChatMessageFileParts
-- `file_parts`, decodeDataUrl `decode_data_url`. Attachments/Collected: collectAttachments is
-- `collect_attachments`, whose state is `Collection`. Attachments/RunInput:
-- uiChatMessageAttachments is `chat_attachments` and uiChatMessagesToRunInput `to_run_input`. The
-- proofs: Attachments/Fresh (the loop), Attachments/Names (the names of files), Attachments/Urls
-- (data URLs), Attachments/Unique, Attachments/Sources and Attachments/Turns (the collection),
-- RunInput/Kept (the files of an input) and RunInput/Named (its prompt). The loop runs on fuel, one
-- round more than there are paths in use: each round that goes on has met another of them.
--
-- Translate (packages/harness-pi-raw/src/pi-translate.ts): translatePiEvent is `translate_event`,
-- on the state `State`, with the body of its switch in `translate_kind`. Translate/Session: events,
-- parts, the state and the texts of messages; Translate/Turn: `begin`, `on_update` (`on_text` and
-- `on_thinking`) and `on_end`; Translate/Tools: `on_tool_start`, `on_tool_end` and `compacted`.
-- `translate` is the session's loop over its events. unwrapPiToolResult is `unwrap_result`,
-- extractAssistantText (pi-events.ts) `extract_assistant_text`. Translate/ToolContent
-- (tool-content.ts): isToolContent is `is_tool_content`; ToolContent/Make: toolContent is
-- `tool_content`. The proofs: ToolContent/Made (the guard on what is made), Translate/Blocks
-- (blocks of text and reasoning), Translate/Streamed and Translate/Told (the text of a turn).
--
-- Gate (packages/harness-pi-raw/src/pi-provider-gate.ts): ForwardingStream, with `push`, `finish`
-- and a turn of its iterator in `next`; `run` is a history of them. Gate/Refine: its specification
-- and the refinement.
--
-- Tests: concrete data, and the models and theorems at it.
--
-- Numbers: counts and times are natural numbers, which the source keeps below 2^53 by validation of
-- its settings; priorities are signed. A call reads the clock once, at its start. The times of a
-- permit are in units in which they are whole; half a time to live is rounded down.
--
-- Parameters: `randomUUID` is a function from the number of a draw to the id, and theorems state
-- where it must not repeat an id. `toLowerCase`, `trim`, the decoding of base64 and
-- `decodeURIComponent` are functions on texts, the last with no result where it throws; so are the
-- ids of blocks by the number of the draw, `JSON.stringify` of a value, and the decoding and
-- encoding again of base64.
--
-- Not modelled: the rest of the request controller (admit and dispose), the Postgres limiter and
-- credential store, the rest of the provider gate, the response that carries a UI message stream,
-- the agent runtime and its sandboxes, and the Pi harness, which mostly drive packages whose code
-- is not in the repository; and the texts of error messages.
pub mod Prelude
pub mod Js
pub mod Concurrency
pub mod Paths
pub mod Attachments
pub mod Gate
pub mod Translate
pub mod UiStream
pub mod Tests
