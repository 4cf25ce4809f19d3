-- ===== src/Lib.antt =====
-- The core of dawn-kestrel, a Python library for agents that work with language models: the type of
-- results, the state machines that agents and workflows follow, the patterns that protect calls of
-- a language model, the queue with its workers, the delegation of tasks to trees of agents, the
-- policies that propose an agent's next step with the gate before them, and the cache and the
-- permissions of tools.
--
-- The parts and their files, with paths from the repository's root:
-- * Core.Result is dawn_kestrel/core/result.py: Ok, Err and Pass. All other parts answer with it.
-- * Core.Fsm is dawn_kestrel/core/fsm.py. Core.Fsm has the data, Machine the class FSMImpl, Builder
--   the class FSMBuilder and Workflow the constants and the class WorkflowFSMBuilder. A machine calls
--   hooks, observers and a mediator: these are programs that act on a world, a type of which nothing is
--   assumed, and that can call the machine back. The calls of transition_to are nested to a depth, beyond
--   which Python raises; the theorems hold for every depth. The repository and the wrappers of
--   FSMReliabilityConfig act on the world alone. Below Machine, Callbacks has what is kept whatever the
--   callbacks do, Quiet and Unheard are about callbacks that leave the machine alone, Transition is
--   about one call, and Trail and Lawful are about sequences of calls. Other tasks that use the machine meanwhile are not modelled: the
--   class says that it is not safe for them.
-- * Agents.State is dawn_kestrel/agents/state.py: AgentStateMachine and FSM_TRANSITIONS.
-- * Llm.RateLimiter, CircuitBreaker, Retry and Bulkhead are the files of dawn_kestrel/llm of these
--   names, and Llm.ProviderLimits is provider_limits.py. The state of each class is a record, each
--   method a function that gives back its answer and the new state.
-- * Reliability is dawn_kestrel/reliability/queue_worker.py: Tasks is InMemoryTaskQueue, Workers is
--   AsyncWorker, Pool is WorkerPool. Tasks are shared objects and stand in a store.
-- * Delegation is dawn_kestrel/delegation: Delegation has the data of types.py and the tracker of
--   convergence.py, Delegation.Signature its signatures, which can raise, Delegation.Engine the
--   depth-first traversal of engine.py, Delegation.Delegate the method delegate in mode DFS (the default,
--   BFS, is not modelled) and Delegation.Policy delegate_with_policy. Its loop is on fuel, of max_iterations
--   and one: the code counts each turn and leaves the loop at max_iterations. The runtime that runs
--   an agent is a parameter, and its exceptions are values.
-- * Tools.Cache is dawn_kestrel/tools/cache.py. Tools.Cache has the data and the methods; the loop that
--   makes room is on fuel, and one turn more than there are entries suffices when the maximum size is
--   positive (Room). Below it, History is about sequences of calls and Herd about aget_or_execute with
--   any number of callers, as events of which each leads from one await to the next. The hash of the
--   arguments is a parameter.
-- * Tools.Permissions is dawn_kestrel/tools/permission_filter.py, with the registry of
--   tools/framework.py, and Tools.Rulesets is dawn_kestrel/permissions/evaluate.py.
-- * Policy is dawn_kestrel/policy: Policy has the data of contracts.py, Rules is rules_policy.py, Router
--   router_policy.py with the small policies of react_policy.py, plan_execute_policy.py and
--   fsm_bridge.py, Gate invariants.py and Validator validator.py. Policy.Delegating has the policies by
--   which a delegation goes on or stops, of policy/builtin/delegation.py and policy/delegation.py, as
--   functions of the context. Todos is the choice of a TODO that two policies share, and Words has the
--   methods of texts that the gate and the router use.
-- * Core.UnitOfWork, Strategies, Mediator and Commands are the files of dawn_kestrel/core of these names.
-- * Prelude has what the parts share: tests on numbers, lists, dictionaries in insertion order, the
--   pieces of formatted texts, and the outcomes of calls that can raise. Tests has the witnesses.
--
-- How the code is read. Await points at which another task can run are steps: the events of
-- Llm.Bulkhead.Permits and the relation Step of Reliability.Workers.Crew range over every order of
-- them. Clock readings are arguments. Floating-point rates and delays are exact fractions or whole
-- milliseconds, and quotients of counts are compared by multiplying out, which agrees with the floats
-- for counts below 10^15; log lines are left out. Texts that the code looks into are lists of code
-- points. The other loops are structural: over the attempts that are left, the requests of a caller,
-- the turns of a wait.
--
-- Not modelled: breadth-first delegation, the orchestrators and sessions (later work), to_json and
-- from_json of results, and the parts that are input and output: providers, storage, the tools
-- themselves, the command line, language servers and git.
pub mod Prelude
pub mod Core
pub mod Agents
pub mod Llm
pub mod Reliability
pub mod Delegation
pub mod Tools
pub mod Policy
pub mod Tests
