-- ===== src/Lib.antt =====
-- kaos-control: the agent orchestrator's core logic, modelled and proved.
--
-- The program keeps its work as markdown artifacts. A workflow engine decides who may move an
-- artifact from one status to another; agent runs on artifacts are queued and run one at a time by
-- a dispatcher that pauses on rate limits; a scheduler of its own runs jobs by their schedules; and a
-- policy decides which tool calls of an agent are allowed.
--
-- Workflow.antt models internal/workflow/workflow.go: the rules, New (overlay_all, overlay),
-- CanTransition (can_transition), AllowedTargets (allowed_targets) and GateReady (gate_ready).
-- Statuses, roles and types are texts, as in the source. Children: Permits (who may move),
-- Targets (AllowedTargets), Overlay (project overrides), Matrix (the default matrix, the list
-- comparison, the plan gate). The rows that GateReady reads are what the index returned.
--
-- Queue.antt models internal/queue/types.go, Queue/Store.antt internal/queue/store.go, and
-- Queue/Dispatcher.antt internal/queue/dispatcher.go. The table of jobs is the list of its rows in
-- the order of insertion, each statement of the store is a function on it, and of the database's
-- errors only the primary key's is modelled. Rows with equal positions count in the order of
-- insertion. A time is its Unix second, 0 is Go's zero time, and time.Time round trips through the
-- database are exact. processNext is cut where it waits: begin_next up to StartRun, launch for
-- StartRun's answer, finish for the end of the run. Queue/Dispatcher/Watch.antt models
-- watchRunEvents over the sequence of what its select receives. Queue/Dispatcher/Steps.antt puts
-- these, the HTTP handlers' calls and the auto-resume goroutines together as steps in any order; one
-- step is atomic, Cancel's read and update too, and Queue/Dispatcher/Race.antt shows what happens between two statements of one.
-- The project lookups, StartRun's answers, the ids drawn and ParseResetTime are parameters.
--
-- Scheduler.antt models internal/scheduler/types.go, store.go, NextFireTime of schedule.go and
-- precondition.go; Scheduler/Cron.antt models Next and its bit tests, and Scheduler/Cron/Fields.antt the
-- parsing of a cron expression's fields (schedule.go), over bytes and 64-bit counters, which wrap around; and
-- Scheduler/Engine.antt models queue.go and scheduler.go: the heap is the list of its items, from which heap.Pop takes
-- a least one, execute is cut at its target (begin_task, finish_task), and a call of tryDispatch is one step.
-- Scheduler/JobQueue.antt models jobQueue alone, with heap.Pop as a parameter, and Scheduler/Dispatching.antt cuts tryDispatch,
-- enqueue and the end of execute where other goroutines come between. Children: Cron/Bits and Cron/Next (what Next finds), Cron/Masks,
-- Cron/Fields/Part and Cron/Fields/Field (what the masks hold), Order (the
-- heap's order), Slots (the slots where calls of tryDispatch come one after the other), Firing (what a tick lets run), Records (Start, the
-- preconditions, TriggerNow). A schedule holds the masks that its cron expression parses to (strings.Fields separates them), times
-- are in a location whose clock is never changed, such as UTC, and the calendar and what the file system, the network and the shell answer are
-- parameters. Of the database's errors only the foreign key's is modelled.
--
-- Policy.antt models internal/agent/policy.go over bytes: Evaluate and what it calls. Its child Glob says
-- what the Bash case accepts, Writes what the case of the file-mutating tools does. Paths.antt is
-- what it uses of path/filepath on Unix.
--
-- Locks.antt models internal/lock/lock.go and the lock statements of internal/index/index.go; its child
-- Table compares the table with a map. Agent.antt models what StartRun, supervise and killAndFail of
-- internal/agent/agent.go take and give back: the lineage lock, a slot of the semaphore (a counter), the
-- run's row, its entry in `active` and its policy. A call of StartRun is one step, and the end of a run is
-- one step; what the insertion of the row and the driver answer are parameters; of the lock
-- manager's failures only the conflict is modelled. Children: Verdict (how
-- the end of a run is judged), Runs (StartRun), Actives, Holding and Exclusion (runs in any order), Reaping
-- (the reaper among them). StatusCheck.antt models internal/statuscheck/statuscheck.go; its children are Stale (what
-- Check suggests) and Advance (what following it leads to).
--
-- Artifact.antt models the names of artifact files: ParseFilename (internal/artifact/artifact.go), isValidSlug
-- and buildFilename (internal/http/write.go), over bytes, without extension and directory, and
-- NextIndexForLineage (internal/index/index.go). Its child Filename has the way there and back.
--
-- Questions.antt models internal/artifact/questions.go: the section of open questions of a body, ParseOpenQuestions
-- and ApplyAnswers; its child Open models HasOpenQuestions (internal/artifact/artifact.go). A body is its code points
-- and a map of answers a function. The other children are Entries (one list item), Sections (all items of a
-- section), Located (the section in its body), Answers (what is read of a written body) and Resolved (completed
-- answers). Strings.antt is what they use of package strings, as documented; its children Trim and Joined have the lemmas.
--
-- RateLimit.antt models the regular expressions and parseHourMinute of internal/queue/parser.go, and RateLimit/Reset.antt
-- its four forms of a reset time and ParseResetTime. Texts are code points, a time is its nanoseconds since Go's zero
-- time, and a duration wraps around. Children: Clock (where an answer comes from) and Retry (waits in seconds).
--
-- Sandbox.antt models Resolve of internal/sandbox/sandbox.go on the segments of paths (Paths.antt), with EvalSymlinks as
-- a parameter; its child Inside says where an answer lies. The loop over the ancestors is a recursion on the segments.
--
-- Triage.antt models eligible (internal/triage/eligibility.go) and Trigger with the goroutine that it starts
-- (internal/triage/triage.go). A call is a thread that is cut where others can come between; Triage/Threads.antt
-- puts the threads, the cooldown's timers and the other users of the lineage locks together as steps in any order.
-- Of the lock manager's errors only the conflict is modelled, and the other users release no lineage that a thread
-- holds: the reaper of stale locks and handleReleaseLock (internal/http/locks.go) are left out. Children:
-- Exclusive (what the runs keep), Waiting (a call that waits for a slot), and for internal/triage/run.go Body
-- (rewriteBody and mergeAndFilterLabels, on code points), Rewritten and Labels.
--
-- Transition.antt models one artifact on disk and in the index: the decisions of handleTransitionArtifact and
-- applyTransition (internal/http/transition.go), IndexFile from the parsed file on (internal/index/index.go) and
-- the automatic transitions (internal/index/autoblock.go), with the workflow engine of Workflow.antt. A file
-- is what Parse reads of it and a hash of its bytes; whether writes succeed is a parameter. A call is one
-- step, as the lock by path makes it. Its children are Automatic (the automatic
-- transitions) and Settles (where a transition ends).
--
-- The search of Next has fuel for each second of its four years, and every round moves on by a second
-- at least where the clock is never changed; tryDispatch has fuel for each item of the queue, and every round takes one out; the loop of a cron part has 130
-- rounds, and a part lists at most 64 values where its counter does not overflow. Every other
-- loop is a recursion on a list or on the rest of one.
--
-- Not modelled: the index's queries, the parsing of frontmatter, the other HTTP
-- handlers, configuration, git, the watcher. The web interface and the
-- command line tools are input and output only.
pub mod Common
pub mod Workflow
pub mod Queue
pub mod Scheduler
pub mod Locks
pub mod Agent
pub mod StatusCheck
pub mod Strings
pub mod Questions
pub mod RateLimit
pub mod Triage
pub mod Sandbox
pub mod Artifact
pub mod Transition
pub mod Paths
pub mod Policy
