-- ===== src/Tests/Settings.antt =====
-- The default configuration, one for Bedrock, and one imported from a `.env` file.
use Prim.Native.Char.{Char, code}
use gpt_pilot.Prelude.{
  ℕ, zero, suc, ◌-◌, String, ◌≡◌, refl, Bool, false, ◌&&◌, some, [], ◌∷◌, leb, if◌then◌else◌,
  Bool-cases, inl, inr, arith, string_eq,
}
use gpt_pilot.Prelude.Dict.{lookup}
use gpt_pilot.Prelude.Strings.{is_in, after_first}
use gpt_pilot.Result.{ok}
use gpt_pilot.Config.{LlmProvider, LlmConfig, AgentLlmConfig, Config, llm_for_agent, get_config}
use gpt_pilot.Config.Defaults.{default_config, default_provider}
use gpt_pilot.Config.Choice.{llm_for_agent-is_complete, get_config_twice}
use gpt_pilot.Config.EnvImporter.{convert_config, has_lower, convert_config-provider}

abbrev start : Config
start = default_config "core/prompts" "workspace"

llm_for_agent-is_complete_example : (c : LlmConfig) × (llm_for_agent start "BugHunter" ≡ ok c)
unfolding lookup string_eq
llm_for_agent-is_complete_example = llm_for_agent-is_complete start "BugHunter" refl

abbrev bedrock : Config
bedrock = record start {
  llm =
      ("anthropic", record default_provider { base_url = some "https://host/bedrock/anthropic" })
      ∷ [];
}

get_config_twice_example :
    get_config
      (some "postgresql+asyncpg://db")
      (get_config (some "postgresql+asyncpg://db") bedrock)
    ≡ get_config (some "postgresql+asyncpg://db") bedrock
get_config_twice_example = get_config_twice (some "postgresql+asyncpg://db") bedrock

-- The upper case of ASCII.
abbrev nth : ℕ → String → Char
nth n String.[] = "A"
nth zero (String.◌∷◌ c s) = c
nth (suc n) (String.◌∷◌ c s) = nth n s

abbrev is_lower : Char → Bool
is_lower c = leb b'a' (code c) && leb (code c) b'z'

abbrev upper_char : Char → Char
upper_char c = if is_lower c then nth (code c - b'a') "ABCDEFGHIJKLMNOPQRSTUVWXYZ" else c

abbrev upper : String → String
upper String.[] = ""
upper (String.◌∷◌ c s) = String.◌∷◌ (upper_char c) (upper s)

is_lower-nth : (n : ℕ) (s : String) → has_lower s ≡ false → is_lower (nth n s) ≡ false
is_lower-nth n String.[] capitals = refl
is_lower-nth zero (String.◌∷◌ c s) capitals = ground (arith, capitals)
is_lower-nth (suc n) (String.◌∷◌ c s) capitals = is_lower-nth n s (ground (arith, capitals))

is_lower-upper_char : (c : Char) → is_lower (upper_char c) ≡ false
is_lower-upper_char c = elim (Bool-cases (is_lower c)) [
  | inl lower ↦ rw (lower) (is_lower-nth (code c - b'a') "ABCDEFGHIJKLMNOPQRSTUVWXYZ" refl)
  | inr capital ↦ rw (capital) capital
]

has_lower-upper : (s : String) → has_lower (upper s) ≡ false
has_lower-upper String.[] = refl
has_lower-upper (String.◌∷◌ c s) = rw (is_lower-upper_char c, has_lower-upper s) refl

convert_config-provider_run :
    (agent : AgentLlmConfig) × (lookup "default"
        (convert_config upper (("MODEL_NAME", "anthropic/claude-3-opus") ∷ []) start).agent
      ≡ some agent)
    × (agent.provider ≡ some LlmProvider.openai)
    × (agent.model ≡ (
        if is_in "/" "anthropic/claude-3-opus"
        then after_first b'/' "anthropic/claude-3-opus"
        else "anthropic/claude-3-opus"))
unfolding lookup string_eq
convert_config-provider_run =
    convert_config-provider upper has_lower-upper (("MODEL_NAME", "anthropic/claude-3-opus") ∷ [])
      start "anthropic/claude-3-opus" refl refl
