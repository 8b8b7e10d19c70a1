-- ===== src/Config/Choice.antt =====
-- The choice of an LLM for an agent in core/config/__init__.py, and its adaption for Bedrock.
use gpt_pilot.Prelude.{
  ◌≡◌, refl, ap, ◌∙◌, if◌then◌else◌, String, Bool, true, false, not, ◌&&◌, Option, none, some, [],
  ◌∷◌, ◌==◌, string_eq, inl, inr, if◌then◌else◌, arith, Option-cases,
}
use gpt_pilot.Prelude.Dict.{Dict, lookup, is_some}
use gpt_pilot.Result.{ok}
use gpt_pilot.Config.{
  provider_value, ProviderConfig, AgentLlmConfig, LlmConfig, Config, provider_config, llm_of,
  llm_for_agent, from_provider_and_agent_configs, bedrock_model, bedrock_agents, is_bedrock,
  adapt_for_bedrock, get_config, or_same, replacement_map, set_url,
}

abbrev pub has_provider : Dict ProviderConfig → AgentLlmConfig → Bool
has_provider llm agent = elim (agent.provider) [
  | none ↦ false
  | some provider ↦ is_some (lookup (provider_value provider) llm)
]

abbrev pub have_providers : Dict ProviderConfig → Dict AgentLlmConfig → Bool
have_providers llm [] = true
have_providers llm ((name, agent) ∷ agents) = has_provider llm agent && have_providers llm agents

-- There is a default agent, and each agent has a provider that is configured.
abbrev pub is_complete : Config → Bool
is_complete config =
    is_some (lookup "default" config.agent) && have_providers config.llm config.agent

has_provider-lookup :
    (llm : Dict ProviderConfig) (agents : Dict AgentLlmConfig) (name : String)
    (agent : AgentLlmConfig)
    → have_providers llm agents ≡ true
    → lookup name agents ≡ some agent
    → has_provider llm agent ≡ true
unfolding lookup
has_provider-lookup llm [] name agent all_there found = absurd (ground arith)
has_provider-lookup llm (_ ∷ agents) name agent all_there found =
    ground (arith, all_there, found, has_provider-lookup llm agents name agent)

llm_of-has_provider :
    (config : Config) (agent : AgentLlmConfig)
    → has_provider config.llm agent ≡ true
    → (c : LlmConfig) × (llm_of config agent ≡ ok c)
unfolding llm_of provider_config
llm_of-has_provider config agent there = elim (Option-cases agent.provider) [
  | inl missing ↦ absurd (ground (arith, rw (missing) at there))
  | inr (provider, e) ↦ elim (Option-cases (lookup (provider_value provider) config.llm)) [
    | inl missing ↦ absurd (ground (arith, rw (e, missing) at there))
    | inr (found, e') ↦ (
      from_provider_and_agent_configs found provider agent,
      rw (llm_of, provider_config, e, e') refl,
    )
  ]
]

-- In a configuration with a default agent and a configured provider for each agent, every agent, named
-- there or not, gets an LLM.
pub llm_for_agent-is_complete :
    (config : Config) (name : String)
    → is_complete config ≡ true
    → (c : LlmConfig) × (llm_for_agent config name ≡ ok c)
unfolding llm_for_agent
llm_for_agent-is_complete config name complete = elim (Option-cases (lookup name config.agent)) [
  | inr (agent, e) ↦
      let (c, chosen) =
        llm_of-has_provider config agent
          (has_provider-lookup config.llm config.agent name agent (ground (arith, complete)) e) in
      (c, rw (e) chosen)
  | inl missing ↦ elim (Option-cases (lookup "default" config.agent)) [
    | inl nothing ↦ absurd (ground (arith, rw (nothing) at complete))
    | inr (agent, e) ↦
        let (c, chosen) = llm_of-has_provider config agent (
          has_provider-lookup config.llm config.agent "default" agent (ground (arith, complete))
            e) in
        (c, rw (missing, e) chosen)
  ]
]

-- No new name is one that is replaced.
abbrev are_new : Dict String → Dict String → Bool
are_new all [] = true
are_new all ((model, new) ∷ names) = not (is_some (lookup new all)) && are_new all names

lookup-are_new :
    (all names : Dict String) (model new : String)
    → are_new all names ≡ true
    → lookup model names ≡ some new
    → is_some (lookup new all) ≡ false
unfolding lookup
lookup-are_new all [] model new fresh found = absurd (ground arith)
lookup-are_new all (_ ∷ names) model new fresh found =
    ground (arith, fresh, found, lookup-are_new all names model new)

names_are_new : are_new replacement_map replacement_map ≡ true
unfolding lookup string_eq
names_are_new = refl

or_same-absent : (model : String) (o : Option String) → is_some o ≡ false → or_same model o ≡ model
or_same-absent model none absent = refl
or_same-absent model (some new) absent = absurd (ground arith)

bedrock_model_twice : (model : String) → bedrock_model (bedrock_model model) ≡ bedrock_model model
unfolding bedrock_model
bedrock_model_twice model = elim (Option-cases (lookup model replacement_map)) [
  | inl kept ↦ rw (kept, kept) refl
  | inr (new, e) ↦
      let last = lookup-are_new replacement_map replacement_map model new names_are_new e in
      rw (e) (or_same-absent new (lookup new replacement_map) last)
]

bedrock_agents_twice :
    (agents : Dict AgentLlmConfig) → bedrock_agents (bedrock_agents agents) ≡ bedrock_agents agents
bedrock_agents_twice [] = refl
bedrock_agents_twice ((name, agent) ∷ agents) =
    cc (bedrock_model_twice agent.model, bedrock_agents_twice agents)

chosen_agents_twice :
    (bedrock : Bool) (agents : Dict AgentLlmConfig)
    → (if bedrock
        then bedrock_agents (if bedrock then bedrock_agents agents else agents)
        else if bedrock
        then bedrock_agents agents
        else agents)
      ≡ (if bedrock then bedrock_agents agents else agents)
chosen_agents_twice true agents = bedrock_agents_twice agents
chosen_agents_twice false agents = refl

adapt_for_bedrock_twice :
    (config : Config) → adapt_for_bedrock (adapt_for_bedrock config) ≡ adapt_for_bedrock config
unfolding adapt_for_bedrock
adapt_for_bedrock_twice config =
    ap (λ agents. record config { agent = agents })
      (chosen_agents_twice (is_bedrock (lookup "anthropic" config.llm)) config.agent)

url_twice :
    (blank : Bool) (old new : String)
    → (if blank then if blank then old else new else new) ≡ (if blank then old else new)
url_twice true old new = refl
url_twice false old new = refl

-- Reading the configuration again changes nothing: the adaption for Bedrock and the address of the
-- database are the same the second time.
pub get_config_twice :
    (url : Option String) (config : Config)
    → get_config url (get_config url config) ≡ get_config url config
unfolding get_config adapt_for_bedrock lookup string_eq
get_config_twice none config = adapt_for_bedrock_twice config
get_config_twice (some url) config =
    ap (λ c. set_url url (set_url url c)) (adapt_for_bedrock_twice config)
    ∙ ap (λ u. record (adapt_for_bedrock config) { db = record config.db { url = u } })
        (url_twice (url == "") config.db.url url)
