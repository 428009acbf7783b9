-- ===== src/Lib.antt =====
-- linkedin-outreach-agent: a control plane that decides what an outreach account may do, and a
-- runtime that does it.
--
-- The parts and how they interact. A campaign's targets are enrolled with a cursor each into its
-- sequence of steps. The dispatch tick walks the due cursors; a step that acts goes through the
-- autonomy gate, which queues it for the operator or asks the safety gate and calls the executor.
-- What the operator approved is sent by the same tick. A reply pulls its target out of the funnel.
--
-- Which file models what:
--   Domain/Enums, Domain/Types, Domain/Rows   shared/src/enums.ts, types.ts, db/schema.ts
--   Calendar, Calendar/Fixed                  the host's clock as the code uses it through Date, and UTC
--   Safety/StateMachine, Safety/Config        control-plane/safety/src/state-machine.ts, config.ts
--   Safety/Schedule, Gate, Signals            control-plane/safety/src/safety-gate.ts: scheduleDefer and
--                                             its helpers, canAct and budget, onSignal and recover
--   Store/Tables, Sequence, Funnel            runtime/src/store/in-memory-store.ts: the repositories, the
--                                             enrollments, stopFunnel and its callers
--   Sequences                                 the step templates of the same store, and listCampaignSteps
--                                             and defineCampaignSteps of runtime/src/adapters/mcp-ports.ts
--   Effects                                   asynchronous methods: a state in, an answer or an exception
--                                             and a state out
--   Profile, Suppression                      shared/src/profile.ts (canonicalProfileKey),
--                                             control-plane/orchestrator/src/suppression.ts
--   Mcp                                       control-plane/mcp/src/gate.ts: mayExecuteDirectly, gateAct
--   Approvals                                 control-plane/orchestrator/src/approvals.ts
--   Router                                    control-plane/orchestrator/src/reply-router.ts
--   Counters, Counters/Live                   runtime/src/adapters/safety-state.ts: the weekly counter; the
--                                             daily and outstanding counters, the clock and the pauses
--   Scheduler, Scheduler/Window               control-plane/scheduler/src/scheduler.ts, working-hours.ts
--   Scheduler/Service                         runtime/src/adapters/scheduler.ts
--   Executor                                  runtime/src/executor/account-runner-executor.ts
--   Campaigns, Campaigns/Autonomy             control-plane/orchestrator/src/campaigns.ts: addTargets;
--                                             createCampaign and the autonomy level
--   Runner                                    account-runner/src/executor/gate.ts and safety/index.ts, and
--                                             mintToken of runtime/src/adapters/safety.ts
--   Dispatch/Advance                          runtime/src/dispatch/advance.ts
--   Dispatch/World, Send, Outcome             runtime/src/dispatch/tick.ts: sendApproved and what it calls
--   Dispatch/Act, Steps, Pass                 runtime/src/dispatch/tick.ts: step and runTick
--   Matching                                  runtime/src/dispatch/match-target.ts
--   Acceptance                                runtime/src/dispatch/acceptance-tick.ts
--   Removal                                   shared/src/campaign-removal.ts, and removeTargets of
--                                             runtime/src/adapters/mcp-ports.ts
--   Replies/Inbox, Replies, Replies/Pass      runtime/src/dispatch/reply-tick.ts
--   Profile/Names                             the names of shared/src/profile.ts
--   Texts, Texts/Uri                          the language's strings on code units, decodeURIComponent
--   Enroll, Enroll/Slots                      runtime/src/adapters/mcp-ports.ts: enrollTargets, enrollStagger
--   Dispatch/Stagger                          runtime/src/dispatch/stagger.ts
--   Prelude/Tests, Lists, Rows                Boolean tests, arrays, and maps keyed by id
--   Laws, Caps, FunnelLaws, Order, Lookups, Readings, Piles, Onward, Distinct, Cancels, Unheld,
--   SendLaws and the like hold proofs; Examples holds the theorems at concrete inputs.
--
-- A function's name is the method's name in lower case with underscores (sendApproved is
-- send_approved). A method with early returns is a chain of functions, each of which is the rest of
-- the method from one return on. Reads of the store inside one method see the writes before them, since
-- the state is passed along; what the ports do to the state is not restricted.
--
-- Numbers: ids are numbers that are compared only; times are milliseconds from 1970 on; a rate is in
-- basis points; the throttle multiplier is a fraction; a draw of Math.random is a number below 2 ^ 53
-- over 2 ^ 53. Subtraction occurs once, for the start of the window of the lane's health, and times are
-- past the first day. Loops over a list are recursion on the list; the two loops that look for an
-- active day run 8 rounds, as in the code, and an active day is found in them. The unbounded loop of
-- the stagger allocator has fuel; one round more than the number of the first free day is enough, and
-- an enrollment keeps such a number beside its allocator.
--
-- Texts: what the code walks (urns, urls, display names) is a list of UTF-16 code units; lower case
-- outside ASCII is a table of the Unicode standard, a parameter. decodeURIComponent takes one round
-- for each unit at most, so the length of the text is enough fuel.
--
-- Ports: the executor, the reply probe, the safety port and the approval port of a tick are steps on
-- the tick's world, given as a record; Zone is the host's calendar with the laws of a clock that is not
-- changed at the times in question. The text that personalizeBody makes is a function that the tick is
-- given.
--
-- Not modelled: the browser and network code of account-runner, the postgres store, the web client and
-- server, the MCP tools, the discovery, the language models, the timers, and of the reply tick the
-- record of scan health and the pace between two reads.
pub mod Prelude
pub mod Domain
pub mod Calendar
pub mod Campaigns
pub mod Counters
pub mod Scheduler
pub mod Safety
pub mod Store
pub mod Effects
pub mod Profile
pub mod Mcp
pub mod Suppression
pub mod Texts
pub mod Matching
pub mod Acceptance
pub mod Replies
pub mod Removal
pub mod Sequences
pub mod Approvals
pub mod Router
pub mod Runner
pub mod Enroll
pub mod Executor
pub mod Dispatch
pub mod Examples
