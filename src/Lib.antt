-- ===== src/Lib.antt =====
-- A model of the core of duraclaw, a durable agent runtime written in Go, and theorems about it.
--
-- The parts, and the files that model them:
-- Workflows (internal/workflow/executor.go, and the rows of internal/db/workflows.go). A definition
-- is a graph of nodes and edges. Workflow/Graph has the data of `loadGraph`, Workflow/Validate the
-- checks of `validateGraph` with its three searches `hasCycle` (Workflow/Cycle), `reachableFrom`
-- (Workflow/Reach) and `canReachTerminal` (Workflow/Terminal). Workflow/Conditions has the conditions
-- on outputs, Workflow/Store the calls of the database, each of which may fail, Workflow/Queue which
-- nodes become ready, Workflow/Activity what a node does (`executeNode`), Workflow/Execute the run of
-- one node (`executeOne`, `executeBatch`), Workflow/Rounds the loop `runReadyQueue` that ties them
-- together, and Workflow/Entry `ExecuteGraph`, `StartAskUser` and `ResumeAwaitingUser`.
-- Policy (internal/policy/policy.go). Policy/Match has the conditions of rules (`ruleMatches`),
-- Policy/Engine `Evaluate`, `record`, `Enforce` and `PromptInstructions`, Policy/Redact redaction, and
-- Policy/Artifact the checks of artifacts.
-- Outbound (internal/outbound/outbox_worker.go). Outbound/Groups has `groupByTopic`, Outbound/Worker the
-- worker that hands claimed items to a sink and completes or releases them.
-- AsyncWrite (internal/asyncwrite/asyncwrite.go): the buffered writer, `Enqueue` and `RunOnce`.
-- Prompt (internal/prompt/compact.go): `CompactMessages`.
-- Runtime (internal/runtime/worker.go, internal/mcp/executor.go and the rows of internal/db/store.go).
-- Runtime/Store has the calls of the store for one run, Runtime/Aliases the names that tools have for a
-- model (`applyToolAliases`), Runtime/Calls the execution of the tool calls of an answer (`executeToolCalls`), Runtime/Loop
-- the loop between model and tools (`agentLoopPhase`, `chat`), Runtime/Run one run from its claim to its end
-- (`RunOnce`, `process`), and Runtime/Finish how a run ends. Runtime/Keeps, Runtime/Yields and Runtime/Limits
-- have the rules by which actions keep a property, leave one, and add executions; Runtime/Once is about
-- calls that may not be run again.
-- Tools (internal/tools/types.go): the registry of tools and the check of their arguments, which
-- Runtime/Calls uses.
-- Providers (internal/providers/types.go): the choice of models (`ResolveCandidates`) and the attempts at
-- them (`ExecuteFallback`), which the registry of providers makes (internal/providers/registry.go). The
-- run worker takes the choice, but has a loop of its own over it (`chat`, in Runtime/Loop).
-- Json: the values that the Go code decodes, and their printing; Shared: helpers.
--
-- State is passed on: a function that changes the database takes a world and returns one. A list
-- `faults` says of each coming call of the database whether it fails, and past its end none does, so a
-- theorem for every world is one for every finite pattern of failures; in Runtime a function of a clock,
-- which every call moves on, says so. A map of Go that is ranged over
-- is the list of its entries in the order of that range.
--
-- Fuel: the searches of a graph take one more unit than there are nodes. `runReadyQueue` gets 202 turns
-- and one more for each fault: each turn but the last runs a node, of at most 100, queues one, or uses
-- up a fault. `agentLoopPhase` recurs on the iterations that its limit leaves.
--
-- Parameters of Runtime: what a tool, an MCP server and a provider of models answer; what a workflow
-- returns and what it leaves, as its nodes may write any of the rows of the run, so that a theorem which
-- needs a workflow to start no call, or to say nothing, has that among its conditions; what the policies
-- refuse and when, the hash of arguments, the cleaning of the model's text, what the configuration of the
-- run says, what other processes make of its state and lease, and what the phases of a run (Runtime/Run)
-- ask of the judge of scope, of the choice of tools and of the like.
-- Parameters of the rest: the node types that call models, tools and other services, the answers of the policy
-- engine to the loop, lower-casing and regular expressions. The goroutines of a batch run one after the
-- other, in the order of the keys; each writes the rows of its own node only.
--
-- Not modelled: HTTP handlers, model providers, MCP transports, the SQL store apart from the calls
-- above, observability, start-up, the scheduler, and what the phases of a run ask: the judge of scope, the
-- delegations by mention, the prompts, the choice of tools, the recommendations.
mod Shared
pub mod Json
pub mod Workflow
pub mod Policy
pub mod Prompt
pub mod Providers
pub mod Outbound
pub mod AsyncWrite
pub mod Tools
pub mod Runtime
