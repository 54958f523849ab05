-- ===== src/Lib.antt =====
-- Pluto's agent platform: the event-sourced run kernel (packages/pluto-v2-core) and the parts of the
-- runtime (packages/pluto-v2-runtime) that decide whose turn it is, what an actor may do and who is
-- woken.
--
-- A run starts from an authored spec, which the compiler checks and turns into a team context. It is
-- an append-only log of events. An agent calls a tool of the local API; the server checks who calls
-- and whose turn it is, and the tool's handler sends a raw request; the kernel parses it, validates it against the run state and the authority policy, turns it into an accepted event
-- or a `request_rejected` event, appends the event to the log and reduces it into the state.
-- The projections reduce the same log into the views that clients read. The turn loop of the
-- runtime lets one actor act at a time: the scheduler picks the next actor from the event that a
-- turn produced, the lease lets that actor mutate once, and the wait registry wakes the actors
-- that wait for an event.
--
-- Common                     the libraries' names, lists and texts over the native numbers, sets and
--                            dictionaries as lists
-- Protocol.Actor             packages/pluto-v2-core/src/actor-ref.ts, entity-ref.ts, `actorKey`
-- Protocol.Event, Request    run-event.ts and protocol-request.ts there: the data types
-- Protocol.Schema, Parse     the zod schemas of the same files: `run_event_ok` is what
--                            `RunEventSchema.parse` checks, `parse_request` is
--                            `ProtocolRequestSchema.safeParse` on a raw value
-- Authority.Policy, State    core/team-context.ts and core/run-state.ts
-- Authority.Rules            core/authority.ts
-- Authority.Validate         core/protocol-validator.ts (`validate`)
-- Authority.Admission ..     what an admissible request is, what a rejection tells and what the
--   Canonical                canonical policy allows
-- Kernel.Reducer, Log        core/run-state-reducer.ts (`reduce`), core/run-event-log.ts
-- Kernel.Host, Build, Submit core/run-kernel.ts (`submit`, `seedRunStarted` and what they call). A
--                            kernel is a record that is passed on; a throw is a value beside the
--                            kernel that it leaves
-- Kernel.Step .. Tasks       the outcome of a call, and the invariants of every kernel that calls
--                            lead to (`Reaches`)
-- Projection.Task, Mailbox,  projections/task-projection.ts, mailbox-projection.ts,
--   Evidence, Replay         evidence-projection.ts and replay.ts
-- Projection.Reducers ..     redelivery, order, and the agreement with the kernel's tasks
--   Agreement
-- Runtime.Scheduler,         packages/pluto-v2-runtime/src/adapters/paseo/agentic-scheduler.ts
--   LoopState                (`pickNextAgenticSchedulerActor`, the budget) and agentic-loop-state.ts
-- Runtime.Driver             the turn loop of adapters/paseo/run-paseo.ts, with the observation of each
--                            turn from outside
-- Runtime.Turns .. Returns   the rounds of the loop, its budget, and who has the turn behind each
-- Runtime.Closeout           adapters/paseo/task-closeout.ts
-- Runtime.Lease              mcp/turn-lease.ts
-- Runtime.Waits              api/wait-registry.ts; `Runtime.Wakeups` puts it beside a log and a queue of
--                            notifications, as a step relation
-- Spec.Authored, Roles,      packages/pluto-v2-core/src/core/spec-compiler.ts (`compile`): every check in its
--   Compile                  order, a failure as a value with its code, message and path
-- Spec.WellFormed .. Decides what a well-formed spec is, and that the compiler accepts just these
-- Spec.Rights, Start         the compiled policy in a run; the kernel of a compiled spec
-- Tools.Values, Names, World the values that tools read and write; what the handlers share
-- Tools.Handlers             tools/pluto-tool-handlers.ts and the schemas of pluto-tool-schemas.ts
-- Tools.Audit, Composite,    api/composite-tools.ts
--   Run
-- Tools.Request, Guards, Api api/pluto-local-api.ts: the route, the actor and the token of a request,
--                            the guards in their order, the lease and the tool (`handle`)
-- Tools.Authorized, Turn     what a request must show, and the requests of a turn
-- Tools.Keeps, Served,       the kernel behind the handlers, the composite tools and the server
--   Replayed
-- Tools.Status .. Concludes  how a run ends over the server
-- Tools.Claims, Audited      what a final reconciliation claims of a view, and what the audit lets pass
-- Prompt.Views, Delta, Wakes adapters/paseo/wakeup-delta.ts (`computeWakeupDelta`)
-- Prompt.Limits              the size of a delta
-- Prompt.Lookups .. Reports  the tasks that a delta reports, told of the log, and that the loop collects
--                            these
-- Prompt.Delivers            a message from the wait registry's test to the delta
-- Runner.Scenario            runtime/runner.ts and runtime-adapter.ts (`runScenario`)
-- Runner.Script, Fake        adapters/fake/fake-script.ts, fake-adapter.ts and fake-run.ts
-- Runner.Plays, Finishes     a script told step by step, and that the loop plays it so
-- Runner.Record              the log of a completed run. The views and the evidence packet that a run
--                            returns behind its loop are left out
-- Samples and the Tests      test data and runs of the definitions
--
-- Parameters, since they are not the repository's code: zod's uuid and datetime formats (`Zod`), and
-- in `Host` the id and clock providers as functions of the number of calls, and the issues of
-- a failed parse. Objects are read at their own properties; that the owner of a task is also looked
-- up at what every object inherits, where it throws, is `authorization_throws`, which a submission
-- asks before it validates. For the tools, `Deps` has besides it the
-- prompt view, the transcripts, where an artifact file lies and whether it can be written, and
-- `Codec` has `JSON.parse` and `decodeURIComponent`, which throw. The server takes one request after
-- the other: the source awaits only file access between what a request does.
--
-- The functions are structurally recursive but for the turn loop, which runs on fuel: 51 rounds are
-- enough, since the limit on turns is capped at 50 and each round takes one turn. The loop of a
-- scenario counts its own steps, as in the source.
--
-- Not modelled: file access, sockets, child processes and prompt texts; the order of a prompt
-- view, the MCP server, evidence packets, the legacy translator and
-- the command lines.
pub mod Common
pub mod Prompt
pub mod Protocol
pub mod Authority
pub mod Spec
pub mod Tools
pub mod Kernel
pub mod Projection
pub mod Runner
pub mod Runtime
mod Samples
