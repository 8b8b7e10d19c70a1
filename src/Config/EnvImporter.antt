-- ===== src/Config/EnvImporter.antt =====
-- `convert_config` of core/config/env_importer.py. `str.upper` is a parameter, of which only this is
-- used: what it gives has no lower case letter of ASCII.
use Prim.Native.Char.{code}
use Prim.Native.String
use gpt_pilot.Prelude.{
  String, ◌≡◌, refl, Bool, true, false, not, ◌&&◌, ◌||◌, Option, none, some, List, [], ◌∷◌, ◌++◌,
  select, ◌==◌, string_eq, leb, if◌then◌else◌, arith, ==_refl,
}
use gpt_pilot.Prelude.Dict.{Dict, lookup, insert, is_some, lookup-insert}
use gpt_pilot.Prelude.Strings.{is_in, after_first, before_first, split_from, remove_part}
use gpt_pilot.Config.{LlmProvider, provider_value, ProviderConfig, AgentLlmConfig, Config}
use gpt_pilot.Config.Defaults.{default_provider}

abbrev pub all_providers : List LlmProvider
all_providers =
    LlmProvider.openai ∷ LlmProvider.anthropic ∷ LlmProvider.groq ∷ LlmProvider.lm_studio
    ∷ LlmProvider.azure ∷ LlmProvider.ollama ∷ []

-- `LLMProvider(text)`
unfoldable pub provider_of_value : List LlmProvider → String → Option LlmProvider
provider_of_value [] text = none
provider_of_value (p ∷ ps) text =
    let rest = provider_of_value ps text in if text == provider_value p then some p else rest

-- A text that counts as true.
abbrev pub given : Option String → Bool
given none = false
given (some s) = not (s == "")

-- `x if x is not None else y`
abbrev pub or_else : Option String → Option String → Option String
or_else none y = y
or_else (some x) y = some x

abbrev pub without_path : Option String → Option String
without_path none = none
without_path (some url) = some (remove_part "chat/completions" 0 url)

abbrev pub is_openai : LlmProvider → Bool
is_openai LlmProvider.openai = true
is_openai _ = false

abbrev pub provider_or_new : Option ProviderConfig → ProviderConfig
provider_or_new none = default_provider
provider_or_new (some p) = p

-- What stands in the configuration for a provider: a new entry takes the place of one that is there when
-- there is an endpoint.
unfoldable pub set_provider :
    Option String → Option String → String → Dict ProviderConfig → Dict ProviderConfig
set_provider endpoint key name llm =
    let old = lookup name llm in
    let base = if given endpoint then default_provider else provider_or_new old in
    let with_url = record base {
      base_url = if given endpoint then without_path endpoint else base.base_url;
    } in
    let with_key = record with_url { api_key = if given key then key else with_url.api_key } in
    if given endpoint || given key then insert name with_key llm else llm

module _ (upper : String → String) where
  abbrev pub variable : LlmProvider → String → String
  variable p suffix = String.◌++◌ (upper (provider_value p)) suffix

  unfoldable pub import_provider :
      Dict String → LlmProvider → Dict ProviderConfig → Dict ProviderConfig
  import_provider values p llm =
      let endpoint = lookup (variable p "_ENDPOINT") values in
      let key = lookup (variable p "_API_KEY") values in
      let router_key = lookup "OPENROUTER_API_KEY" values in
      let endpoint' =
        or_else endpoint
          (or_else (lookup "AZURE_ENDPOINT" values) (lookup "OPENROUTER_ENDPOINT" values)) in
      let key' = or_else key (lookup "AZURE_API_KEY" values) in
      let from_router = not (is_some key') && given router_key && not (is_some endpoint') in
      let router =
        if from_router then some "https://openrouter.ai/api/v1/chat/completions" else endpoint' in
      if is_openai p
      then set_provider router (or_else key' router_key) (provider_value p) llm
      else set_provider endpoint key (provider_value p) llm

  unfoldable pub import_providers :
      Dict String → List LlmProvider → Dict ProviderConfig → Dict ProviderConfig
  import_providers values [] llm = llm
  import_providers values (p ∷ ps) llm = import_providers values ps (import_provider values p llm)

  abbrev pub provider_or_openai : Option LlmProvider → LlmProvider
  provider_or_openai none = LlmProvider.openai
  provider_or_openai (some p) = p

  -- The name of the model and its provider, which may stand before a slash.
  unfoldable pub agent_of_model : String → AgentLlmConfig → AgentLlmConfig
  agent_of_model model agent =
      let provider = if is_in "/" model then before_first b'/' model else "openai" in
      record agent {
        model = if is_in "/" model then after_first b'/' model else model;
        provider = some (provider_or_openai (provider_of_value all_providers (upper provider)));
      }

  abbrev pub default_agent : Option AgentLlmConfig → AgentLlmConfig
  default_agent none = record {
    provider = some LlmProvider.openai;
    model = "gpt-4o-2024-05-13";
    temperature = 5;
  }
  default_agent (some agent) = agent

  abbrev pub set_model : Option String → Dict AgentLlmConfig → Dict AgentLlmConfig
  set_model none agents = agents
  set_model (some model) agents =
      if model == ""
      then agents
      else insert "default" (agent_of_model model (default_agent (lookup "default" agents))) agents

  abbrev pub more_ignored : Option String → List String
  more_ignored none = []
  more_ignored (some paths) = select (λ path. not (path == "")) (split_from b',' "" paths)

  -- The variables of the `.env` file, and the configuration that it starts from.
  unfoldable pub convert_config : Dict String → Config → Config
  convert_config values config = record config {
    llm = import_providers values all_providers config.llm;
    agent = set_model (lookup "MODEL_NAME" values) config.agent;
    fs = record config.fs {
      ignore_paths = config.fs.ignore_paths ++ more_ignored (lookup "IGNORE_PATHS" values);
    };
  }

-- Whether a text has a lower case letter of ASCII.
abbrev pub has_lower : String → Bool
has_lower String.[] = false
has_lower (String.◌∷◌ c s) = leb b'a' (code c) && leb (code c) b'z' || has_lower s

has_lower-provider_value : (p : LlmProvider) → has_lower (provider_value p) ≡ true
has_lower-provider_value LlmProvider.openai = refl
has_lower-provider_value LlmProvider.anthropic = refl
has_lower-provider_value LlmProvider.groq = refl
has_lower-provider_value LlmProvider.lm_studio = refl
has_lower-provider_value LlmProvider.azure = refl
has_lower-provider_value LlmProvider.ollama = refl

provider_of_value-has_lower :
    (ps : List LlmProvider) (text : String)
    → has_lower text ≡ false
    → provider_of_value ps text ≡ none
unfolding provider_of_value
provider_of_value-has_lower [] text capital = refl
provider_of_value-has_lower (p ∷ ps) text capital =
    ground (arith, capital, has_lower-provider_value p, provider_of_value-has_lower ps text capital)

-- Whatever provider a model's name stands after, the imported configuration gives its agents without
-- one of their own the provider OpenAI: the name is looked for in upper case, and the values of
-- LLMProvider are in lower case.
pub convert_config-provider :
    (upper : String → String)
    → ((s : String) → has_lower (upper s) ≡ false)
    → (values : Dict String) (config : Config) (model : String)
    → lookup "MODEL_NAME" values ≡ some model
    → (model == "") ≡ false
    → (agent : AgentLlmConfig) × (lookup "default" (convert_config upper values config).agent
        ≡ some agent)
      × (agent.provider ≡ some LlmProvider.openai)
      × (agent.model ≡ (if is_in "/" model then after_first b'/' model else model))
unfolding convert_config agent_of_model
convert_config-provider upper capitals values config model named there =
    let provider = if is_in "/" model then before_first b'/' model else "openai" in
    (
      agent_of_model upper model (default_agent upper (lookup "default" config.agent)),
      rw
          (
            named,
            there,
            lookup-insert "default" "default" _ config.agent,
            ==_refl {A = String} "default",
          )
          refl,
      rw (provider_of_value-has_lower all_providers (upper provider) (capitals provider)) refl,
      refl,
    )
