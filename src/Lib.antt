-- ===== src/Lib.antt =====
-- The verification of looping-core: a library that drives one Task of an agent through rounds of a
-- model, the subtasks that a round delegates, and the delivery of the result.
--
-- Parts. A Workflow (src/round/workflow.ts, Round/Workflow) runs rounds until one of them answers.
-- Each round (src/round/turn.ts, Round/Turn) renders the Session as messages (Round/Render), calls a
-- primary and then a fallback model within a turn budget (src/agent/budget.ts, Agent/Budget),
-- repairs rejected calls, and stores what it says under deterministic ids (src/agent/history.ts and
-- src/agent/session.ts, Agent/History and Agent/Session). The calls that may end a round are
-- src/agent/control.ts (Agent/Control, Agent/ControlTools); a `delegate` call is resolved by
-- src/subtasks/decomposition.ts (Subtasks/Decomposition). A round that delegates leaves rows
-- (src/subtasks/types.ts, Subtasks/Types) that the Workflow executes in chunks. The result goes out
-- by src/a2a/deliver.ts (A2a/Deliver). The agent that the Workflow calls (src/round/agent.ts,
-- Round/Agent) puts a round, the Session and the tables together. The A2A tasks and the subtasks
-- live in two tables (src/db/models/tasks.ts, Db/Tasks, and src/db/models/subtasks.ts, Db/Subtasks).
-- A chunk of a subtask (src/round/agent.ts, Round/Chunk) claims the subtask's row, runs in a managed
-- child (src/subagent/index.ts, Subagent/Facet) and stores what the child says. The child keeps one run
-- and one result by the request's fingerprint, and advances the run by src/subagent/run.ts
-- (Subagent/Attempt and Subagent/Chunk, the conversation in Subagent/Messages), with the prompt of
-- src/subagent/prompt.ts (Subagent/Prompt). The recipe that it runs is checked by
-- src/contract/validation.ts (Contract/Recipe, Contract/Limits), by the parent and by the child. Apart
-- from Tasks, src/alarm/index.ts (Alarm) keeps many deadlines over one alarm, and src/job (Job) the
-- record of a long job that an alarm runs.
--
-- Correspondence. A function of the source is a function of the same name in snake case. A record of
-- the source is a record, a union a data type. A call that changes state is a step on an explicit
-- world (Base/Step), which returns or throws; a durable step of the Workflow, with its retries, is
-- one such step. The loops over rounds and chunks count their remaining iterations, and the repair
-- loop counts its attempts: each has the bound that the source's own loop has, so no fuel can run
-- out. The chunks of a whole run in memory are counted as the source counts them, by the turn budget
-- and two more.
--
-- Outside the model. Models (`generateText`), the Agents SDK's Session, SQL statements and a
-- Workflow's steps are operations of interfaces (RoundEnv, ControlEnv, SessionStore, TaskAgent,
-- TaskTable, SubtaskTable, SubagentEnv, ChildEnv, DurableStorage, JobEnv), with their documented
-- behaviour as fields where a theorem uses it. Each call of the Session may throw, and its fault leaves
-- the round as it leaves the source's.
-- The branches of a round are run one after another; what happens to a task's row while a model works is
-- a function that the theorems quantify over, and what happens to the rows of subtasks while a child
-- runs is part of that operation. A JSON value is opaque, a fingerprint is a function of the request,
-- and a row that was written reads back as it was. The prompts of a round, streamed progress and log
-- lines are left out, and so are the A2A protocol's glue, the HTTP entry points, provider wiring and the
-- test helpers. Of the child (src/subagent/index.ts) the interruption of a running chunk and the
-- workspace are not modelled, of the agent (src/round/agent.ts) what it does when a Task is canceled and
-- the sweep of a Task's children.
pub mod Base
pub mod Agent
pub mod Subtasks
pub mod Db
pub mod Subagent
pub mod Round
pub mod A2a
pub mod Alarm
pub mod Job
pub mod Contract
