-- ===== src/Lib.antt =====
-- A verification development for VivadoServer, the Linux service that runs one client's Vivado
-- workflow at a time: it takes a project's files from the client, runs Vivado's Tcl shell on
-- them, and hands the results back.
--
-- The modules follow the crate. Error models src/error.rs; Auth models src/auth.rs, with the
-- hash, its comparison and the reading of a header value as parameters; History models the list
-- of gaps, the pages and the journal of src/history.rs; Workspace models the name checks of
-- src/workspace.rs; Session.Output models the terminal's output buffer, src/session/output.rs,
-- over the records of Session.Model (src/session/model.rs); Sync.Paths, Sync.Order and
-- Sync.Manifest model src/sync/files.rs: the paths, their sorts, and the check of a client's
-- manifest, over the messages of Sync.Model (src/sync/model.rs); Sync.Plan models the plans of a
-- push and a pull in src/sync.rs, and Sync.Transaction and Sync.Rollback model
-- src/sync/transaction.rs; Workflow models src/workflow.rs, the manager of the workflows, which
-- calls the session manager, the sync manager and the project store.
--
-- Base holds the shared helpers: Boolean tests and 64-bit addition (Base.Tests), lists
-- (Base.Lists), texts (Base.Text) and maps and object stores (Base.Maps). A text is the list of
-- its characters; its length in bytes is that of its UTF-8 form.
--
-- Session.Output follows push and since line by line. Sequence numbers and byte counts are 64-bit
-- words and wrap as in a release build; the theorems assume fewer pushes than a word counts, and
-- a byte limit below half a word, which the configuration guarantees. The loop that looks for a
-- character boundary takes the length of the text as fuel, which suffices since the end of a text
-- is a boundary. Session.Output.Holds relates a buffer to the list of all texts ever pushed, and
-- Session.Output.Log reads off what a client sees.
--
-- Session.Decoder holds the decoder of the bytes that a terminal writes. What std::str::from_utf8
-- and String::from_utf8_lossy find at the front of some bytes is `sequence`, the table of their
-- documentation; the loops over the bytes take the number of the bytes as fuel, since each round
-- but the last drops one. Session.Decoder.Encode writes a text as UTF-8.
--
-- A manifest is a list of entries, which a map by path is too, in the order of its keys. The glob
-- patterns of a request are a parameter. The source writes the comparison of two trees twice, in
-- create_plan and in create_pull_plan; Sync.Plan has it once. Sync.Plan.Carried says what
-- carrying out a plan does to each path, and Sync.Plan.Yields that this is what was wanted.
--
-- Sync.Sessions models the plans that src/sync.rs keeps: what create_plan, receive_upload,
-- commit_session, abort_session, cleanup_session, status, reap and prune_results do to a session
-- while its data is locked. Sync.Sessions.Registry adds the manager with the map of sessions and
-- the semaphore. Sync.Sessions.Steps is the relation of these sections under the locks of the
-- code: an upload holds the read half of a session's activity lock, a commit starts and a plan
-- closes under the write half, and one plan is made at a time. Sync.Sessions.Steps.Rules says
-- what every session keeps. Fields that only logs read are left out.
--
-- Sync.Sessions.Handlers puts the sections together as commit_session, abort_session_inner,
-- cleanup_session and abort do, Sync.Sessions.Handlers.Upload as receive_upload does,
-- Sync.Sessions.Handlers.Create as create_plan does, and Sync.Sessions.Handlers.Reap as reap and
-- abort_open do. What the other tasks do during a wait, the outcome of apply_commit, of the scan,
-- of making and removing the staging directory and of the reception of a file are parameters; an
-- abort waits for a commit a number of rounds, and is blocked when they are used up.
--
-- A transaction works on a disk that is a parameter (Sync.Disk): the calls of the file system,
-- each of which may fail at any time. IsReversible states what the code relies on: a failed
-- rename changes nothing, and a rename to a free name can be undone. An operation is told the
-- UUID of its backup. Sync.Transaction.Undo looks at one change, Sync.Transaction.Perform at one
-- operation, and Sync.Transaction.Rollback at a whole transaction. Sync.Commit is apply_commit
-- and apply_reset of src/sync.rs: their checks of the disk and the scan of the staged tree are
-- parameters, the loops over the plan, the comparison with it and the transaction are written
-- out. Sync.Transaction.Made and Sync.Commit.Made follow what the operations and the loops
-- record. A state of the disk does not show the times and the permissions of a file.
--
-- In Workflow a workflow is an object on a store, which registry entries point to by an index (an
-- Arc). Workflow.Registry, Workflow.Cleanup, Workflow.Sections and Workflow.Prune hold one
-- function for each section that the code runs under its locks; the clocks are fields of the
-- manager. Workflow.Machine is the language of the handlers: sections, calls of the services, and
-- waits, at which other tasks change the state as a function of the model says. A handler can
-- return, fail, or stay blocked for a lock. Workflow.Handlers and its children hold create,
-- push_plan, commit, abort_sync, start_session, observe_session, stop_session, the transfers
-- (lease, manifest, upload, pull_plan, download, head_download), finish, cancel and
-- cleanup_workflow in these terms, over the services of Workflow.Services, which are a parameter.
-- The observer and the cleanup worker are tasks of their own; their loops run for a number of
-- rounds that is a parameter, and block when it is used up. The theorems on them hold for every
-- number of rounds.
--
-- Workflow.Steps is the relation of the manager's atomic steps, the specification of what a task
-- may do to the manager. Workflow.Keeps and Workflow.Closed show, combinator by combinator and
-- handler by handler, that a property that every section keeps is kept by every handler.
-- Workflow.Steps.Serve concludes that each task only takes steps of the relation, so that what is
-- proved of the steps, in Workflow.Steps.Invariant, Workflow.Steps.Exclusion,
-- Workflow.Steps.Advance and Workflow.Steps.Workers, holds of the program under every
-- interleaving. Workflow.Excludes is about the activity lock in the handlers. Workflow.Worker
-- shows that the cleanup worker ends its workflow. Workflow.Slot is the invariant of the single
-- slot.
--
-- History.Chunks is text_events, whose loop gets as much fuel as the text has characters: each
-- round takes one at least. History.Journal models the journal itself. History.Journal.Retained
-- is what the reader holds and what track_tail, apply_lifecycle and the loop of append do to it;
-- History.Journal.Pruning is prune; History.Journal.State is Inner and Writer in one, and
-- History.Journal is enqueue and the branches of run: a message, and a time-out. The number of
-- bytes of an event on a line, and what comes of each operation on the spool file, are
-- parameters; a line has at least one byte. A UUID is a number. History.Journal.Moves is the
-- relation of the steps of the producers, the writer and the clock. A turn of the writer is a
-- sequence of steps there, one for each section under the locks of the reader and of the pending
-- gaps, since producers enqueue and pages are read in between; History.Journal.Undisturbed puts
-- them together again. Those sections of the writer that touch nothing that others see, such as
-- writes to the spool file, are one step with what follows. The lemmas on what is trimmed or
-- pruned are in History.Journal.Kept and History.Journal.Limits, those on the accounts of the
-- sequence numbers in History.Journal.Accounts and History.Journal.Recorded, and those on the
-- producers and the writer in History.Journal.Queue, History.Journal.Failed,
-- History.Journal.Writer, History.Journal.Detached and History.Journal.Turns.
-- History.Journal.Collector is about a reader of pages. The counters are taken to stay below
-- 2^64.
--
-- Of the workflow manager, metrics, log records, tracing spans and the durable history are left
-- out, as they do not feed back into the state; of the history there remains that recording a
-- request can fail. A panic of a task is not modelled.
--
-- Not modelled: the replay of the journal at a start, the sync manager's scan of the disk, the
-- process supervisor and the PTY (operating system), HTTP routing and OpenAPI documents,
-- configuration parsing, logging, metrics and the diagnostics archive.
pub mod Base
pub mod Auth
pub mod Error
pub mod History
pub mod Session
pub mod Sync
pub mod Workflow
pub mod Workspace
