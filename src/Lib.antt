-- ===== src/Lib.antt =====
-- Rewind: a group collects short clips in a cycle, the server closes the cycle, compiles its film,
-- publishes it and archives it. The server (server/src) keeps its state in SQL tables and changes it
-- in transactions; the app (src) records clips, uploads them and shows the group's chat.
--
-- Parts and files:
-- - Common.antt and its children: Booleans, results, dates and numbers of JavaScript, lists as tables.
-- - Tables.antt: the rows that several parts share, by the columns of
--   server/migrations/postgres/030-baseline.sql.
-- - Cycles/Engine.antt: server/src/cycles/engine.ts, the pure timing of a cycle.
-- - Cycles/Lifecycle.antt, its Output and Transactions: server/src/cycles/lifecycle.ts. `readCycle` is
--   read_cycle, `ensureSuccessor` is ensure_successor, `advanceCycleLifecycleVerified` is
--   advance_cycle_lifecycle_verified, `publishCycleReleaseVerified` is publish_cycle_release_verified.
--   It creates the film job through Jobs/Compilation.antt.
-- - Jobs/Inputs.antt and Jobs/Compilation.antt: the film jobs of server/src/jobs/index.ts, the choice
--   of the clips, the rows that are inserted and the record that is read back.
-- - Jobs/Reconcile.antt, Jobs/Claims.antt and Jobs/Reports.antt: the rest of a film job in that file.
--   `reconcileCompilationJobInputsLocked`, `acceptedCompilationInputs` and
--   `freezeSettledCompilationInputsLocked` are in the first, `claimCompilationJob` in the second,
--   `updateCompilationJobProgress`, `markCompilationFailed` and `publishCompilationOutput` in the
--   third. Jobs/Lease.antt and its children hold the contract between the workers of a film: the steps
--   that the status, the claim generation, the attempts and the output of a job may take, and the
--   proof that any sequence of calls takes only such steps.
-- - Jobs/Clips.antt: `claimClipJob`, `markOutputPrepared`, `finalizePreparedOutput` and `markFailed` of
--   that file, for the clips.
-- - Jobs/Queue.antt: server/src/jobs/queue.ts, the pages of the queue.
-- - Auth/Cache.antt: server/src/auth/identity-cache.ts. Auth/Sessions.antt, Auth/Failures.antt and
--   Auth/Login.antt: server/src/auth/index.ts, the validation of a session through that memory, the
--   cooldowns after failed sign-ins, the sign-in with a password and its reset.
-- - Archive/Capabilities.antt: server/src/archive/capabilities.ts. It reads the sessions of
--   Auth/Sessions.antt and the tables of the jobs and the cycles.
-- - Contributions/Quota.antt and Contributions/Deletion.antt: server/src/contributions/index.ts, the
--   weekly allowance of a member and the one deletion in it.
-- - Groups/Throttle.antt and Groups/Invites.antt: server/src/groups/invites.ts, the guess throttle and
--   `acceptRealGroupInvite`.
-- - Media/ServingBudget.antt: server/src/media/serving-budget.ts.
-- - Chat/Messages.antt: `createChatMessage` and `toggleChatReaction` of server/src/chat/index.ts.
-- - Chat/Unread.antt and Chat/Reactions.antt: src/chat/unread-store.ts and src/chat/reaction-sync.ts.
-- - Capture/Interruption.antt and Capture/Uploader.antt: src/capture/capture-interruption.ts and
--   src/capture/clip-uploader.ts.
--
-- A table is a list of rows, a statement is a search, an update, an insertion or a deletion by a
-- Boolean test, and a transaction is a function from the tables to its result: a rolled back one
-- returns an error and no tables, or the tables that it was given. Identifiers, texts and digests
-- are numbers; `none` is NULL. An instant is the number of milliseconds after the earliest
-- JavaScript date. Random identifiers, digests, the clock, and the bytes of files are arguments.
-- Every loop of the modelled code is over the rows of a table or the events of a stream, and is by
-- recursion on the list. Two loops are on fuel: the walk over the pages of the queue, a client's
-- loop, for which the number of jobs and one more is enough, and the eviction of capabilities, for
-- which their number is enough; a theorem says so of each. Code that awaits is split at the await:
-- what other processes do meanwhile is a function on the state (sign-in), or the sequence of calls
-- is arbitrary (film jobs, sessions).
--
-- The library functions that the code calls are arguments: the rounding of a percentage in floating
-- point (`percent`), of which only one theorem asks that a part is at most 100 percent of the whole;
-- the arithmetic of doubles on the seconds of an allowance (`Doubles`); the length of the text of a
-- queue cursor (`encoded_length`); scrypt with the comparison of its result (`matches`); the answers
-- of the file system and of the media store to a publication.
--
-- Not modelled: account creation and Cognito, the ledger, the lists of the server's chat, reminders,
-- media stores and upload intents, the encoding between the claim and the publication of a job, the
-- worker's tick, HTTP and the database adapter, and the screens of the app; FFmpeg, SQL and the
-- network are not code of this repository.
pub mod Common
pub mod Tables
pub mod Jobs
pub mod Cycles
pub mod Contributions
pub mod Media
pub mod Chat
pub mod Groups
pub mod Auth
pub mod Archive
pub mod Capture
