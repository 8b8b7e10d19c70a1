-- ===== src/Lib.antt =====
-- A verification library of the core of gpt-pilot, a program that lets agents develop an application
-- step by step.
--
-- The parts and how they interact. A branch of a project is a chain of project states, one for each
-- step (core/db/models/project_state.py). The state manager (core/state/state_manager.py) holds the
-- current state, which is read only, and the next one, which the agents change; it keeps the files
-- of the states in step with the workspace, which it reaches by a virtual file system
-- (core/disk/vfs.py). The orchestrator (core/agents/orchestrator.py) chooses from the current state
-- and the last response which agent works next, runs it and publishes its lifecycle.
--
-- Which file models which part:
-- * Prelude and its child modules have the helpers: decided equality, lists, dictionaries as lists of
--   entries in the order of insertion, the methods of Python's str that the code calls, and ℤ. Result has the exceptions: a method that may raise
--   returns a Result.
-- * Records has the values that the states hold: tasks, iterations, steps, epics, files, the
--   specification. An entry of a JSON object that may be missing is an Option. Records.Work finds and
--   finishes work in lists of them, and Records.Rows stores files.
-- * ProjectState models the class ProjectState, one function for each method; a method that changes
--   the state takes it and returns the new one. Completion, Files, Operations and Rounds below it
--   are about completing work, about saving files, about all operations and the chain of states, and
--   about completing all tasks.
-- * Vfs is the interface of a file system with the laws that the state manager relies on, Vfs.Memory
--   the class MemoryVFS, and Vfs.Memory.Laws shows that it is such a file system.
-- * StateManager models `import_files`, `restore_files`, `get_modified_files` and
--   `workspace_is_empty` over any file system; Views, Import, Removal, Restore and Modified
--   below it have the lemmas of the loops, and Sync compares the state with the workspace. Contents
--   models `get_modified_files_with_content`, and Saving `save_file`.
-- * StateManager.Session models `create_project`, `load_project`, `commit` and `rollback` with the
--   queries of core/db/models/branch.py and core/db/models/project.py on tables of rows. Rows, Chain,
--   History and Reload below it are about the queries, about a commit, about any calls in any order,
--   and about loading what was committed.
-- * StateManager.Knowledge models `get_apis`, `update_apis`, `update_implemented_pages_and_apis`,
--   `update_utility_functions` and `get_input_required`, which read the text of the files.
-- * Agents and Orchestrator model core/agents/response.py and the orchestrator: `create_agent` with
--   its helpers, `handle_parallel_responses`, in Orchestrator.Run `_execute_agent`,
--   `_run_single_agent`, `_run_parallel_agents` and the loop of `_run_step`, and in
--   Orchestrator.Knowledge `_update_knowledge_base`. What the agents do is a parameter (the record
--   Runtime), and so is `asyncio.gather`.
-- * Messaging models core/messaging/message_broker.py and core/messaging/chat.py: queues are a store
--   that the broker and its subscribers share. Delivery, Bounds and Fifo below it are about who gets
--   a message, about what holds after any calls, and about the order of the messages of a chat.
-- * Convo models core/llm/convo.py on messages whose content is a text; the tokenizer is a parameter.
--   Adding has `add` and `_dedent`, Common is about `after`, Trim about trimming.
-- * LlmClient models `__call__` of core/llm/base.py: `round` is one turn of its loop. What the
--   provider answers, the handler that asks the user, and the parser are arguments. Retries is about
--   the end of the loop and what is returned.
-- * Scheduler models core/llm/ollama_scheduler.py: `advance` takes one worker to its next await, and a
--   run is any list of such steps. Resources is about what the workers hold. It allows
--   more interleavings than asyncio does, where taking a free unit does not yield.
-- * ErrorHandler models core/agents/error_handler.py, with the answers of the user and the LLM as
--   arguments; Recovery below it follows the next state to the agent that is created for it.
-- * Troubleshooter and BugHunter model core/agents/troubleshooter.py and core/agents/bug_hunter.py as
--   functions of the current and the next state, with the answers of the user and the LLM as
--   arguments. Troubleshooter.Dialogue has the questions to the user, with `get_relevant_files` of
--   core/agents/mixins.py, and BugHunter.Cycles the bug hunting cycles. Missing, Outcomes and Testing
--   are about what a run of the BugHunter lacks and what it does; Loops and Bugs about feedback, and
--   the way of a bug from the one agent to the other.
-- * Workers models the agents that finish a step or a task: core/agents/executor.py,
--   task_completer.py, human_input.py and legacy_handler.py; Workers.Commands follows a command that
--   fails to the ErrorHandler. ProblemSolver models core/agents/problem_solver.py.
-- * TechLead models core/agents/tech_lead.py; TechLead.Planning has `plan_epic` and `run`, and
--   TechLead.Editing is about the plan that the user gives back.
-- * IpcClient models how core/ui/ipc_client.py receives messages, over a list of reads.
-- * Proc models core/proc/process_manager.py over an operating system that is a parameter (the record
--   System): reading without blocking, the ways to end a process, `run_command` with its time limit,
--   and in Proc.Watching the watcher, whose rounds are steps of a relation that mixes with the starts
--   and removals of processes.
-- * Parser models core/llm/parser.py: a regular expression is the function on the lines of the text
--   that it stands for; `json.loads` and the pydantic models are parameters.
-- * Config models core/config/__init__.py and, in Config.EnvImporter, core/config/env_importer.py.
-- * Telemetry models core/telemetry/__init__.py.
-- * Tests has runs on concrete states and files.
--
-- Bounds and fuel. The loops are structural recursions on lists but for five. That of `_run_step`
-- runs until an agent ends it: it takes fuel, and its result says whether the loop came to its end, so
-- that what is shown holds for every number of rounds. `trim_to_tokens` takes fuel, and more rounds
-- than there are messages are enough, since each round deletes one. `call` takes fuel; one round more
-- than there are retries is enough where no user can be asked to go on.
-- `nonblock_read` takes fuel in reads, since a process that writes all the time may keep it busy for
-- ever, and the loop of `run_command` takes fuel in rounds.
--
-- Not modelled: what SQLAlchemy does beyond storing a row, prompts and the calls of the LLM
-- providers, what is shown or sent to the user and over the network, project templates, and
-- LocalDiskVFS, which calls the operating system. For its sake the interface in Vfs allows for paths
-- that name one file, texts that are not read as they were saved, and a listing that depends on the
-- files; a save or a removal that raises is left out. Hashes are a function without collisions.
pub mod Prelude
pub mod Result
pub mod Records
pub mod ProjectState
pub mod Vfs
pub mod StateManager
pub mod Agents
pub mod Orchestrator
pub mod Messaging
pub mod Convo
pub mod Scheduler
pub mod LlmClient
pub mod ErrorHandler
pub mod Proc
pub mod Parser
pub mod BugHunter
pub mod IpcClient
pub mod TechLead
pub mod Workers
pub mod ProblemSolver
pub mod Troubleshooter
pub mod Config
pub mod Telemetry
pub mod Tests
