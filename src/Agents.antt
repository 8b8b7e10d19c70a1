-- ===== src/Agents.antt =====
-- The agents and their responses: core/agents/response.py, and the agent classes that the
-- orchestrator in core/agents/orchestrator.py creates.
use gpt_pilot.Prelude.{Eq, ℕ, String, Option, List, []}
use gpt_pilot.Records.{Step}

pub data ResponseType : Type 0 where
  done error cancel exit describe_files input_required import_project : ResponseType
  external_docs_required web_search_required update_specification : ResponseType

pub data AgentClass : Type 0 where
  orchestrator frontend spec_writer architect tech_lead tech_writer task_completer : AgentClass
  developer code_monkey executor human_input legacy_handler bug_hunter troubleshooter : AgentClass
  problem_solver error_handler importer external_documentation web_search : AgentClass

unfoldable pub AgentClass-discrete : Discrete AgentClass
AgentClass-discrete = hlevel

instance unfoldable pub agent_class_eq : Eq AgentClass
agent_class_eq = record { dec = AgentClass-discrete }

-- `{"file": path, "line": line}`
pub record InputFile : Type 0 where
  pub file : String
  pub line : ℕ

-- `data` is split into the entries that the program reads.
pub record AgentResponse : Type 0 where
  pub type : ResponseType
  pub agent : AgentClass
  pub files : List InputFile
  pub message : String

pub record Agent : Type 0 where
  pub class : AgentClass
  pub step : Option Step
  pub prev_response : Option AgentResponse

-- The static methods of AgentResponse.
abbrev pub respond_done : AgentClass → AgentResponse
respond_done agent = record { type = ResponseType.done; agent = agent; files = []; message = "" }

abbrev pub respond_error : AgentClass → String → AgentResponse
respond_error agent message = record {
  type = ResponseType.error;
  agent = agent;
  files = [];
  message = message;
}

abbrev pub respond_input_required : AgentClass → List InputFile → AgentResponse
respond_input_required agent files = record {
  type = ResponseType.input_required;
  agent = agent;
  files = files;
  message = "";
}

abbrev pub respond_describe_files : AgentClass → AgentResponse
respond_describe_files agent = record {
  type = ResponseType.describe_files;
  agent = agent;
  files = [];
  message = "";
}

abbrev pub respond_cancel : AgentClass → AgentResponse
respond_cancel agent = record {
  type = ResponseType.cancel;
  agent = agent;
  files = [];
  message = "";
}

abbrev pub respond_exit : AgentClass → AgentResponse
respond_exit agent = record { type = ResponseType.exit; agent = agent; files = []; message = "" }
