-- ===== src/Config.antt =====
-- The configuration of core/config/__init__.py. A temperature is in tenths, a timeout in seconds. The
-- dictionary of the providers has the values of LLMProvider for keys, which are equal to its members.
pub mod Defaults
pub mod Choice
pub mod EnvImporter
use text.Mathlib.Text.{starts_with}
use gpt_pilot.Prelude.{
  ℕ, String, Bool, true, false, not, ◌&&◌, Option, none, some, List, [], ◌∷◌, any, map, select,
  ◌==◌, string_eq, contains, leb, if◌then◌else◌,
}
use gpt_pilot.Prelude.Dict.{Dict, lookup, insert}
use gpt_pilot.Prelude.Strings.{splitlines, strip, join_lines, is_in}
use gpt_pilot.Result.{Result, ok, raise, value_error, key_error, ◌>>=◌}

pub data LlmProvider : Type 0 where
  openai anthropic groq lm_studio azure ollama : LlmProvider

abbrev pub provider_value : LlmProvider → String
provider_value LlmProvider.openai = "openai"
provider_value LlmProvider.anthropic = "anthropic"
provider_value LlmProvider.groq = "groq"
provider_value LlmProvider.lm_studio = "lm-studio"
provider_value LlmProvider.azure = "azure"
provider_value LlmProvider.ollama = "ollama"

pub record ProviderConfig : Type 0 where
  pub base_url : Option String
  pub api_key : Option String
  pub connect_timeout : ℕ
  pub read_timeout : ℕ
  pub extra : Option (Dict String)

pub record AgentLlmConfig : Type 0 where
  pub provider : Option LlmProvider
  pub model : String
  pub temperature : ℕ

pub record LlmConfig : Type 0 where
  pub provider : LlmProvider
  pub model : String
  pub base_url : Option String
  pub api_key : Option String
  pub temperature : ℕ
  pub connect_timeout : ℕ
  pub read_timeout : ℕ
  pub extra : Option (Dict String)

pub record LogConfig : Type 0 where
  pub level : String
  pub format : String
  pub output : Option String

pub record DbConfig : Type 0 where
  pub url : String
  pub debug_sql : Bool

pub data UiConfig : Type 0 where
  plain_ui : UiConfig
  local_ipc : String → ℕ → UiConfig
  virtual_ui : List String → UiConfig

pub data FileSystemType : Type 0 where
  memory local : FileSystemType

pub record FileSystemConfig : Type 0 where
  pub type : FileSystemType
  pub workspace_root : String
  pub ignore_paths : List String
  pub ignore_size_threshold : ℕ

pub record Config : Type 0 where
  pub llm : Dict ProviderConfig
  pub agent : Dict AgentLlmConfig
  pub prompt_paths : List String
  pub log : LogConfig
  pub db : DbConfig
  pub ui : UiConfig
  pub fs : FileSystemConfig

-- The constraints and validators of the fields. Which paths are directories, and whether asyncpg is
-- installed, are arguments.
abbrev pub is_temperature : ℕ → Bool
is_temperature t = leb t 10

unfoldable pub is_log_level : String → Bool
is_log_level level = contains ("DEBUG" ∷ "INFO" ∷ "WARNING" ∷ "ERROR" ∷ "CRITICAL" ∷ []) level

unfoldable pub validate_url_scheme : Bool → String → Result String
validate_url_scheme has_asyncpg url =
    if starts_with url "postgresql+asyncpg://"
    then if has_asyncpg
      then ok url
      else raise (value_error "To use PostgreSQL database, please install the `asyncpg` package")
    else raise (value_error "Unsupported database URL scheme in: ")

unfoldable pub validate_paths : (String → Bool) → List String → Result (List String)
validate_paths isdir paths =
    if any (λ path. not (isdir path)) paths
    then raise (value_error "Invalid prompt path: ")
    else ok paths

-- `dict[key]`
abbrev pub or_key_error {ℓ} : {V : Type ℓ} → String → Option V → Result V
or_key_error key none = raise (key_error key)
or_key_error key (some v) = ok v

abbrev pub get_or_raise {ℓ} : {V : Type ℓ} → String → Dict V → Result V
get_or_raise key d = or_key_error key (lookup key d)

unfoldable pub from_provider_and_agent_configs :
    ProviderConfig → LlmProvider → AgentLlmConfig → LlmConfig
from_provider_and_agent_configs provider name agent = record {
  provider = name;
  model = agent.model;
  base_url = provider.base_url;
  api_key = provider.api_key;
  temperature = agent.temperature;
  connect_timeout = provider.connect_timeout;
  read_timeout = provider.read_timeout;
  extra = provider.extra;
}

-- `self.llm[agent_config.provider]`, where None is no key.
unfoldable pub provider_config : Config → Option LlmProvider → Result (LlmProvider × ProviderConfig)
provider_config config none = raise (key_error "None")
provider_config config (some provider) =
    get_or_raise (provider_value provider) config.llm >>= λ found. ok (provider, found)

unfoldable pub llm_of : Config → AgentLlmConfig → Result LlmConfig
llm_of config agent = provider_config config agent.provider >>= λ found.
    ok (from_provider_and_agent_configs found.1 found.0 agent)

abbrev pub agent_or_default : Config → Option AgentLlmConfig → Result AgentLlmConfig
agent_or_default config (some agent) = ok agent
agent_or_default config none = get_or_raise "default" config.agent

unfoldable pub llm_for_agent : Config → String → Result LlmConfig
llm_for_agent config name = agent_or_default config (lookup name config.agent) >>= llm_of config

abbrev pub llms_for : Config → Dict AgentLlmConfig → Result (List LlmConfig)
llms_for config [] = ok []
llms_for config ((name, agent) ∷ agents) = do
  llm ← llm_for_agent config name
  llms ← llms_for config agents
  ok (llm ∷ llms)

unfoldable pub all_llms : Config → Result (List LlmConfig)
all_llms config = llms_for config config.agent

unfoldable pub remove_json_comments : String → String
remove_json_comments text =
    join_lines (select (λ line. not (starts_with (strip line) "//")) (splitlines text))

abbrev pub replacement_map : Dict String
replacement_map =
    ("claude-3-5-sonnet-20241022", "us.anthropic.claude-3-5-sonnet-20241022-v2:0")
    ∷ ("claude-3-5-sonnet-20240620", "us.anthropic.claude-3-5-sonnet-20240620-v1:0")
    ∷ ("claude-3-sonnet-20240229", "us.anthropic.claude-3-sonnet-20240229-v1:0")
    ∷ ("claude-3-haiku-20240307", "us.anthropic.claude-3-haiku-20240307-v1:0")
    ∷ ("claude-3-opus-20240229", "us.anthropic.claude-3-opus-20240229-v1:0")
    ∷ []

abbrev pub or_same : String → Option String → String
or_same model none = model
or_same model (some new) = new

unfoldable pub bedrock_model : String → String
bedrock_model model = or_same model (lookup model replacement_map)

abbrev pub bedrock_agents : Dict AgentLlmConfig → Dict AgentLlmConfig
bedrock_agents [] = []
bedrock_agents ((name, agent) ∷ agents) =
    (name, record agent { model = bedrock_model agent.model }) ∷ bedrock_agents agents

abbrev pub is_bedrock : Option ProviderConfig → Bool
is_bedrock none = false
is_bedrock (some provider) = elim (provider.base_url) [
  | none ↦ false
  | some url ↦ is_in "bedrock/anthropic" url
]

unfoldable pub adapt_for_bedrock : Config → Config
adapt_for_bedrock config = record config {
  agent =
      if is_bedrock (lookup "anthropic" config.llm)
      then bedrock_agents config.agent
      else config.agent;
}

-- The environment variable DATABASE_URL is an argument. The loaded configuration is changed in place,
-- so this is also what the loader holds afterwards.
-- `if db_url := getenv("DATABASE_URL"): config.db.url = db_url`
abbrev pub set_url : String → Config → Config
set_url url config = record config {
  db = record config.db { url = if url == "" then config.db.url else url };
}

abbrev pub set_database_url : Option String → Config → Config
set_database_url none config = config
set_database_url (some url) config = set_url url config

unfoldable pub get_config : Option String → Config → Config
get_config database_url config = set_database_url database_url (adapt_for_bedrock config)
