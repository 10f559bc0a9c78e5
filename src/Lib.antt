-- ===== src/Lib.antt =====
-- The capture core of workgraph: how the daemon asks for captures, how workers claim and settle them,
-- and how the links from units of work to projects are written and decided.
--
-- Parts, and the files of the repository that they model:
--
--   Clock      The stored texts of instants: time.RFC3339Nano in UTC, its parser, and the order of the
--              texts that SQL comparisons use. An instant is a number of nanoseconds from the year 0, a
--              text its whole seconds and the bytes after them: the texts of the years 0 to 9999 have one
--              length up to there, so the seconds compare as the texts do. Later years are not checked.
--   Retry      connectorRetryDelay (run.go), with the doubling of an int64.
--   Window     narrowedCaptureUntil (bridged_window_split.go).
--   Registry   The table of connectors and its lookups (connector_registry.go, connector.go,
--              bridged_capture.go).
--   Runtime    The connectors' entries in connectors.json, and what polls, ingests and completions record
--              there (connector.go).
--   Outbox     The tables capture_requests and capture_cursors (init.go) as lists of rows, and the
--              statements on them. Its children model bridged_capture.go, one for each part: Recycle
--              (recycleExpiredCaptureClaims), Claim (claimCaptureRequests), Capability
--              (RenewCaptureRequest, FailCaptureRequest with bridged_window_split.go,
--              releaseWorkerCaptureClaims), Cancel (the three cancellations), Emit
--              (EmitBridgedCaptureRequest, and emitLLMTaskRequest of llm_schedule.go), Complete
--              (IngestBridgedCapture for a claimed request, completeClaimedCaptureRequest, and
--              completeLLMTaskTx of llm_schedule.go). Calls puts them together as a history; Rows,
--              Evolution, Single, Invariant, History, Holder, Failure, Granted, Ingest, Watermark,
--              Covered, Progress, Reached, Window and Expiry hold the proofs.
--   Commands   The commands on connectors (connector.go): the mode, the scope and the enabling, which also
--              change the outbox; Settings (interval, connection, disconnection) and Polling
--              (connectorReadyForPolling, connectorNextPoll). Effects, Outcomes, Disabling, Scope and
--              History hold the proofs.
--   Links      The table project_links (project_links.go) and its operations: Summary
--              (sanitizeProjectLinkSummary), Write (validateProjectLink, insertProjectLink,
--              decideProjectLink), Decide (approve, assign, undo), Record (recordProjectLinkRunTx) and
--              Review (project_review_bulk.go). Rows, Current, History, Written, Proposals,
--              Recorded, Outcomes and Placement hold the proofs.
--   Accuracy   Whether a profile may go on applying links by itself (project_accuracy.go): Quotient (the
--              doubles and their texts), Measure and Report (projectLinkAccuracy, For, Summary), Record
--              (recordAutoApplyPauseTransition, withProjectLinksTx of project_links.go, and
--              associateAutoApplies and a part of associateRun.write of project_associate.go). Counts,
--              Reported, Entries, Newest, Settled, Verdicts, Pauses and AutoApply hold the proofs. A
--              double is kept exactly, in units of 2^-1074; the counts that are divided are below 2^53.
--   Cadence    When the daemon runs the linker (llmAssociateCadence of llm_schedule.go and the loop of
--              runLLMAssociateScheduler of run.go), and Cooldowns (associateMembersHash,
--              recordAssociateCooldowns, activeAssociateCooldowns). Daily, Open and Cooled hold the
--              proofs. The digest of a text is an argument.
--   Units      The units of work that captured events are grouped into (project_units.go): Groups
--              (keyedProjectUnits, newProjectUnit) and Bursts (splitProjectUnitEvents,
--              slackProjectUnits, gitSessionProjectUnits, projectUnits). Held, Partition and Gaps hold
--              the proofs.
--   Suggestions What is proposed to the user (suggestions.go): Propose (UpsertSuggestion and the
--              suppressions), Decide (UpdateSuggestionStatus, DismissSuggestion, ApproveSuggestion,
--              CompleteSuggestion) and Snooze (SnoozeSuggestion, ListSuggestions). Rows, Recorded,
--              Legal, Moved, Steps, Kept and History hold the proofs.
--   Relink     Moving the links of containers to the projects that they map to now, and rechecking the
--              proposals of a model (project_relink.go): Apply has the batches, Containers the two
--              commands.
--              Superseded, Batches, Planned and Relinked hold the proofs.
--   Common     Names, tests, lists, texts and results that the parts share. Examples, here and in
--              Links, Accuracy, Commands, Cadence, Units, Suggestions and Relink, are concrete runs.
--
-- How they interact: an emission reads the connector's cursor and its entry, and makes a request where
-- the connector has no active one; a worker claims it and gets a token; the holder of the token renews,
-- fails or ingests it; an ingest moves the cursor on and records the completion in the runtime file. Each
-- operation is one transaction or one statement after another on one connection, so a history is a list
-- of calls, each on the store that the last one left; a call that fails leaves the store as it was.
--
-- What stands outside: random ids and tokens, the scopes that validatedBridgeParams accepts, and the other
-- checks of a command (the record Checks), are arguments; so are Unicode's table of format
-- characters, and how json.MarshalIndent lays out the text of a scope in connectors.json. A
-- lease or a number of claims of 0 or less is 0, and the code's default is taken for it. The rounds of
-- the doubling loop are as many as the failures.
--
-- Not modelled: the opening and reading of files, the decoding of an ingest's input and the Slack List
-- snapshots, the ingest without a request, the filter and the attachment of llm tasks around a claim, the
-- loading of thresholds, the provider clients, the daemon's goroutines, the bridge workers and the
-- command line. The message of a split leaves out the two instants that the source prints in it.
pub mod Accuracy
pub mod Cadence
pub mod Units
pub mod Suggestions
pub mod Relink
pub mod Commands
pub mod Common
pub mod Clock
pub mod Retry
pub mod Window
pub mod Registry
pub mod Runtime
pub mod Outbox
pub mod Links
pub mod Examples
