-- ===== src/Lib.antt =====
-- collomia: an agent for the terminal whose model calls tools. This library models the parts that
-- decide what a tool call may do and when delegated work may run.
--
-- The parts and how they interact. A tool describes a call as an Action (internal/tools/tools.go).
-- internal/permission/permission.go decides it: `decideBase` runs a pipeline of gates, of which one
-- asks the rules of internal/policy/policy.go, `decide` adds the restriction layer of an agent
-- profile, and `Authorize` asks the reviewer and the person, keeps their session grants and writes
-- the ledger. A delegating agent runs writers side by side: internal/writescope/scope.go normalizes
-- and compares their write scopes, and internal/agent/scheduler.go admits a writer when a slot is
-- free and its scopes meet those of no running one. internal/plan keeps the plan that the agent
-- maintains, checks it on each write, with the scopes of its isolated steps, and assesses whether it
-- can truthfully finish. The web tools open connections only through the guard of
-- internal/web/guard.go, which sees the resolved address of each. internal/goalgraph/graph.go runs a
-- goal as a graph of nodes: the agent starts one node at a time in the primary worktree, every tool
-- call is recorded before and after it acts, and a node is done only on evidence that is fresh for
-- the workspace it leaves behind. It checks scopes with internal/writescope as the plan does. Every
-- file that a tool changes is recorded by internal/diffmodel, which undoes the last change and
-- restores the files of an earlier turn.
--
-- Files:
--   Common, Common/*        Boolean tests, lists and texts that the parts share.
--   Policy                  internal/policy/policy.go: Request, Decision, Evaluate and matches, with
--                           Rule of internal/config/config.go. Policy/Glob is path.Match of Go's
--                           standard library. Policy/Cover: what a chosen rule says of the request.
--   Permission/Defs         Action, Manager, and the predicates of permission.go on an action.
--   Permission/Decide       decideBase, each early return a gate, and decide. Decide/Granted,
--                           Decide/Approval, Decide/Sanctions, Decide/Safety and Decide/Posture:
--                           what an outcome means.
--   Permission/Session      the setters, Capabilities, GrantableKinds and applyGrants.
--                           Session/Grants, Session/Offers and Session/OffersKept: what a pick adds.
--   Permission/Authorize    Authorize and reviewerVeto with an explicit state: manager and ledger.
--   Permission/Reachable    every sequence of changes of the manager as a relation.
--   Writescope              internal/writescope/scope.go. Writescope/Clean is path.Clean.
--                           Writescope/Overlaps and Writescope/Disjoint: Overlap and Violations.
--                           Writescope/Collected, Writescope/Normal and Writescope/Inside:
--                           Normalize and compact.
--   Scheduler               internal/agent/scheduler.go as a state machine: NewScheduler,
--                           AcquireScoped, its cancellation, and release. Scheduler/Invariant,
--                           Remove, Start, Steps and GiveBack carry the invariant through every
--                           operation; Scheduler/Reach and Scheduler/Fifo: what follows.
--   Plan                    internal/plan: Data the types, Cycle dependencyCycle, Validate the contract
--                           of a plan with one function per loop, Completion AssessCompletion, Merge
--                           mergePlan, Board the holder with Set and Update. Acyclic, Validate/Fresh,
--                           Validate/Steps, Validate/Rules and Validate/Valid, Completion/Assessed,
--                           Merge/Kept, Board/Writes and Board/Updates: what they are proved to
--                           do. Paths of artifacts go through path.Clean of Writescope/Clean,
--                           which is filepath.Clean where the separator is a slash.
--   WebGuard                internal/web/guard.go: blockedReason and dialControl. WebGuard/Listed and
--                           WebGuard/ListedV6: the blocks it keeps out, as intervals.
--   GoalGraph               internal/goalgraph/graph.go, the primary lane. GoalGraph/Data the types;
--                           Slots a slice that is searched and written by key; Budget, Budget/Clock
--                           the accounts; Ready refreshReadyLocked and reduceOutcomeLocked,
--                           Ready/Stale the invalidations; Record the evidence of an attempt; Start
--                           StartNext; Tools BeginTool, Results FinishTool and RecordFailure;
--                           Propose ProposeCompletion and BlockActive; Operator the calls of the
--                           operator, from RecordPrimaryUsage to Cancel; Recover, Swept what it
--                           leaves; Spec ValidateSpec; New.
--                           Lane/* carry the invariant through each operation, Reach runs any
--                           sequence of them. Reach/Invariant, Reach/Terminal, Gate, Replay,
--                           Accounts, Budget/Admission, Record/Prune, Spec/Valid and Ready/Fuel:
--                           what they are proved to do.
--   DiffModel               internal/diffmodel: Data the tracker and its surroundings, Plan
--                           RecordWithMode and planReversals, Restore VerifyRestore and RestoreTo,
--                           Undo, Checkpoint persistCheckpointLocked and the guard of a restore, Lines
--                           lcsOps. Plan/Spans, Restore/Writes, Restore/Returns, Restore/Guarded,
--                           Restore/Vanished, Undo, Checkpoint/Retained, Lines/Spells and
--                           Lines/Longest: what they are proved to do.
--
-- How the code is read. The mutex makes a method of the scheduler and of the goal graph one step,
-- so their states, and that of the manager, are records that a step maps to records. Authorize is
-- one step too, although the source releases the manager's lock while the reviewer and the person
-- answer: what the model says of it is said of calls that no other change of the manager meets
-- half-way. A Go map from a name to a Boolean is the list of the names that are true. A waiter is
-- known by a number where the source compares pointers, and a new one takes a fresh number. An
-- error is a constructor, its message is left out. A compiled regular expression is a record with
-- its text and a test on strings. filepath.Clean is read as path.Clean, as it is where the
-- separator is a slash: the paths of artifacts are those of a Unix system. A method of the goal
-- graph takes a `Call`: the reading of the clock, the identifier that a new attempt would take and
-- the answer of the store that saves the graph, one each; a time is a number of nanoseconds, 0 for
-- Go's zero time, and a cost is exact, in millionths of a dollar, where the source adds floats. The
-- counts of work are ints that are not negative: their sums wrap around at 2^64, and the tests of
-- the budget read them as unsigned, which is what Go does while they, and input and output tokens
-- together, stay below 2^63. A running attempt whose node does not exist, which the check of a
-- saved graph rules out and where the source would dereference nil, is an error. The files that a
-- restore reads and writes are a function from paths, and an `Io` says what the machine answers.
--
-- Parameters: `classify`, the credential label of a path (internal/secrets), the answer of the
-- approver and of the reviewer process, the calls of encoding/json on messages (`Json`), the clock,
-- the store of the goal graph (`Call`), the file system and the store of checkpoints (`Io`), and
-- the case tables of Unicode (`lower` and `fold`). No theorem assumes more of them than it says.
--
-- Bounds and fuel: path.Match parses a pattern with its length as fuel, and each step takes at
-- least one character. The search for a cycle of dependencies takes one more than the number of
-- steps, since its open calls stand for different steps; it is proved never to run out. The search
-- for the ancestors of a goal's node, and the passes over its dependents, take one more than the
-- number of nodes, since each but the last one adds an identifier of a node; they are proved to
-- have enough. The walk that gives the operations of a diff takes the number of lines of both
-- sides, of which each step takes one. All other loops are structural.
--
-- Not modelled: the construction of a manager from the configuration, the display of grants
-- (SessionGrants), the ledger's file, the texts of messages and, in the goal graph, the texts of
-- reasons and details for the operator; the read workers and the isolated writers of a goal graph,
-- its revisions, the extension of its budget and the check of a saved one; the reading of a saved
-- checkpoint, the text of a diff and its hunks; and the parts that talk to the machine, to the
-- network, to a model or to the terminal.
pub mod Common
pub mod DiffModel
pub mod GoalGraph
pub mod Permission
pub mod Plan
pub mod Policy
pub mod Scheduler
pub mod WebGuard
pub mod Writescope
