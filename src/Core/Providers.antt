-- ===== src/Core/Providers.antt =====
-- crates/darius-core/src/providers.rs and src/providers/: the profiles of the providers.
use darius.Base.{
  ℕ, String, Bool, true, false, ◌||◌, Option, none, some, List, [], ◌∷◌, str_eq, contains, find,
}

pub data AuthType : Type 0 where
  api_key keyless nous_oauth : AuthType

pub record ProviderProfile : Type 0 where
  pub id : String
  pub aliases : List String
  pub display_name : String
  pub base_url : String
  pub models_url : Option String
  pub key_env : Option String
  pub auth_type : AuthType
  pub static_headers : List (String × String)
  pub fallback_models : List String
  pub default_model : String
  pub default_max_tokens : Option ℕ
  pub strict_string_tool_content : Bool
  pub strip_tool_message_names : Bool
  pub omit_authorization : Bool

abbrev pub attribution : List (String × String)
attribution = ("HTTP-Referer", "https://github.com/galaxycoils/darius") ∷ ("X-Title", "Darius") ∷ []

abbrev pub kilocode : ProviderProfile
kilocode = record {
  id = "kilocode";
  aliases = "kilo-code" ∷ "kilo" ∷ "kilo-gateway" ∷ [];
  display_name = "Kilo Code";
  base_url = "https://api.kilo.ai/api/gateway";
  models_url = none;
  key_env = some "KILOCODE_API_KEY";
  auth_type = api_key;
  static_headers = [];
  fallback_models =
      "anthropic/claude-opus-4.6" ∷ "anthropic/claude-sonnet-4.6" ∷ "openai/gpt-5.4"
      ∷ "google/gemini-3-pro-preview" ∷ "google/gemini-3-flash-preview" ∷ [];
  default_model = "google/gemini-3.6-flash";
  default_max_tokens = none;
  strict_string_tool_content = false;
  strip_tool_message_names = false;
  omit_authorization = false;
}

abbrev pub opencode_go : ProviderProfile
opencode_go = record {
  id = "opencode-go";
  aliases = "opencode_go" ∷ "go" ∷ "opencode-go-sub" ∷ [];
  display_name = "OpenCode Go";
  base_url = "https://opencode.ai/zen/go/v1";
  models_url = none;
  key_env = some "OPENCODE_GO_API_KEY";
  auth_type = api_key;
  static_headers = attribution;
  fallback_models =
      "kimi-k3" ∷ "kimi-k2.7-code" ∷ "kimi-k2.6" ∷ "kimi-k2.5" ∷ "gpt-5.6-luna" ∷ "grok-4.5"
      ∷ "glm-5.3" ∷ "glm-5.3-flash" ∷ "glm-5.2" ∷ "glm-5.1" ∷ "glm-5" ∷ "mimo-v2.5-pro"
      ∷ "mimo-v2.5" ∷ "mimo-v2-pro" ∷ "mimo-v2-omni" ∷ "minimax-m3" ∷ "minimax-m2.7"
      ∷ "minimax-m2.5" ∷ "deepseek-v4-pro" ∷ "deepseek-v4-flash" ∷ "qwen3.8-max" ∷ "qwen3.7-max"
      ∷ "qwen3.7-plus" ∷ "qwen3.6-plus" ∷ "qwen3.5-plus" ∷ "hy3" ∷ "hy3-preview"
      ∷ "muse-spark-1.2-contributor" ∷ "muse-spark-1.3-contributor" ∷ [];
  default_model = "glm-5";
  default_max_tokens = none;
  strict_string_tool_content = true;
  strip_tool_message_names = false;
  omit_authorization = false;
}

abbrev pub opencode_free : ProviderProfile
opencode_free = record {
  id = "opencode-free";
  aliases = "free" ∷ "opencode_free" ∷ [];
  display_name = "OpenCode Free";
  base_url = "https://opencode.ai/zen/v1";
  models_url = none;
  key_env = none;
  auth_type = keyless;
  static_headers = attribution;
  fallback_models =
      "deepseek-v4-flash-free" ∷ "hy3-free" ∷ "mimo-v2.5-free" ∷ "laguna-s-2.1-free"
      ∷ "nemotron-3-ultra-free" ∷ "nemotron-3.5-lightning-free" ∷ "muse-spark-1.2-contributor-free"
      ∷ "muse-spark-1.3-contributor-free" ∷ [];
  default_model = "laguna-s-2.1-free";
  default_max_tokens = none;
  strict_string_tool_content = false;
  strip_tool_message_names = false;
  omit_authorization = true;
}

abbrev pub nous : ProviderProfile
nous = record {
  id = "nous";
  aliases = "nous-portal" ∷ "nousresearch" ∷ [];
  display_name = "Nous Research";
  base_url = "https://inference-api.nousresearch.com/v1";
  models_url = none;
  key_env = some "NOUS_API_KEY";
  auth_type = nous_oauth;
  static_headers = [];
  fallback_models = "hermes-3-405b" ∷ "hermes-3-70b" ∷ [];
  default_model = "z-ai/glm-5.2";
  default_max_tokens = none;
  strict_string_tool_content = false;
  strip_tool_message_names = false;
  omit_authorization = false;
}

abbrev pub openrouter : ProviderProfile
openrouter = record {
  id = "openrouter";
  aliases = "or" ∷ [];
  display_name = "OpenRouter";
  base_url = "https://openrouter.ai/api/v1";
  models_url = some "https://openrouter.ai/api/v1/models";
  key_env = some "OPENROUTER_API_KEY";
  auth_type = api_key;
  static_headers = attribution;
  fallback_models =
      "anthropic/claude-sonnet-4.6" ∷ "openai/gpt-5.4" ∷ "deepseek/deepseek-chat"
      ∷ "google/gemini-3.8-flash" ∷ "google/gemini-3.7-flash" ∷ "qwen/qwen3-plus" ∷ [];
  default_model = "z-ai/glm-5.2";
  default_max_tokens = none;
  strict_string_tool_content = false;
  strip_tool_message_names = false;
  omit_authorization = false;
}

abbrev pub nvidia : ProviderProfile
nvidia = record {
  id = "nvidia";
  aliases = "nvidia-nim" ∷ [];
  display_name = "NVIDIA NIM";
  base_url = "https://integrate.api.nvidia.com/v1";
  models_url = none;
  key_env = some "NVIDIA_API_KEY";
  auth_type = api_key;
  static_headers = [];
  fallback_models = "nvidia/llama-3.1-nemotron-70b-instruct" ∷ "nvidia/llama-3.3-70b-instruct" ∷ [];
  default_model = "nvidia/llama-3.1-nemotron-70b-instruct";
  default_max_tokens = some 16384;
  strict_string_tool_content = false;
  strip_tool_message_names = true;
  omit_authorization = false;
}

abbrev pub all_profiles : List ProviderProfile
all_profiles = kilocode ∷ opencode_go ∷ opencode_free ∷ nous ∷ openrouter ∷ nvidia ∷ []

unfoldable pub resolve : String → Option ProviderProfile
resolve id_or_alias =
    find (λ (p : ProviderProfile). str_eq p.id id_or_alias || contains id_or_alias p.aliases)
      all_profiles
