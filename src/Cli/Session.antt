-- ===== src/Cli/Session.antt =====
-- crates/darius-cli/src/runtime.rs: the session, its compaction and the change of its model;
-- src/runtime_selection.rs: the state of the provider; src/tui_runtime/view.rs.
use darius.Base.{
  ℕ, String, ◌⧺◌, Bool, true, false, not, ◌||◌, ◌&&◌, Option, none, some, List, [], ◌∷◌, ◌++◌, Dict,
  str_eq, has_text, decimal, length, is_blank, if◌then◌else◌, Reply, ok, err, take_chars, join, leb,
  ◌==◌, ◌+◌,
}
use Prim.Native.Char.{code}
use Prim.Native.String.{String as Text}
use darius.Core.Providers.{AuthType}
use darius.Core.Models.{ModelConfig as CoreModelConfig}
use darius.Tools.{Registry}
use darius.Tools.Board.{TaskBoard}
use darius.Cognitive.Types.{
  Message, user, assistant, ToolSpec, RunMetadata, LoopPolicy, Mode, auto, plan, Result,
}
use darius.Cognitive.Host.{Host}
use darius.Cognitive.Transcript.{compact}

-- `config::ModelConfig`, the one of a profile's config.toml.
pub record ModelConfig : Type 0 where
  pub provider : String
  pub base_url : String
  pub model : String
  pub api_key_env : Option String
  pub auth_type : Option AuthType
  pub default_max_tokens : Option ℕ
  pub context_length : Option ℕ
  pub headers : Option (Dict String String)

-- Less the routing of OpenRouter, which no operation here reads.
pub record ProviderSelection : Type 0 where
  pub provider : String
  pub model : String
  pub base_url : String
  pub key_env : String
  pub auth_type : Option AuthType
  pub default_max_tokens : Option ℕ
  pub context_length : Option ℕ
  pub headers : Option (Dict String String)

unfoldable pub config : ProviderSelection → ModelConfig
config p = record {
  provider = p.provider;
  base_url = p.base_url;
  model = p.model;
  api_key_env = some p.key_env;
  auth_type = p.auth_type;
  default_max_tokens = p.default_max_tokens;
  context_length = p.context_length;
  headers = p.headers;
}

pub data RuntimeState : Type 0 where
  offline_demo setup : RuntimeState
  missing_key live : ProviderSelection → RuntimeState

-- A record that is found, and what is recorded.
pub record Found : Type 0 where
  pub kind : String
  pub title : Option String
  pub body : String

pub record Pack : Type 0 where
  pub plain : String
  pub record_ids : List String

-- What a session and its actor use besides the turn: the memory engine, the file of the model's
-- configuration and the models, all in the state of the host; the environment; the serialized
-- length of a transcript; the redaction of secrets in a text and in a URL.
pub record Services {V : Type 0} (h : Host V) : Type 1 where
  pub record_count : h.State → Reply String ℕ
  -- of at most so many records
  pub search : String → ℕ → h.State → Reply String (List Found)
  pub pack : ℕ → ℕ → h.State → Reply String Pack
  -- `upsert` of the episode that a compaction leaves, by its body; its error is dropped
  pub upsert_episode : String → h.State → h.State
  pub save_model_config : String → CoreModelConfig → h.State → h.State
  pub mock_model : h.State → h.State
  pub live_model : CoreModelConfig → h.State → Reply String h.State
  pub is_set : String → Bool
  pub transcript_chars : List (Message V) → ℕ
  pub strip_url_secrets : String → String

-- `{:?}`
abbrev pub debug_mode : Mode → String
debug_mode auto = "Auto"
debug_mode plan = "Plan"

lower_code : ℕ → ℕ
lower_code c = if leb 65 c && leb c 90 then c + 32 else c

unfoldable pub eq_ignore_ascii_case : String → String → Bool
unfolding lower_code
eq_ignore_ascii_case Text.[] Text.[] = true
eq_ignore_ascii_case (Text.◌∷◌ c s) (Text.◌∷◌ d t) =
    lower_code (code c) == lower_code (code d) && eq_ignore_ascii_case s t
eq_ignore_ascii_case _ _ = false

module _ {V : Type 0} (h : Host V) where
  pub record SessionRuntime : Type 0 where
    pub mode : Mode
    pub permissions : List (String × String)
    pub profile : String
    pub profile_dir : String
    pub profile_model : Option ModelConfig
    pub tools : Registry h.tools
    pub task_board : TaskBoard
    pub conversation : List (Message V)
    pub workspace : String
    pub metadata : RunMetadata
    pub cancelled : Bool
    pub policy : LoopPolicy
    pub state : RuntimeState
    pub diagnostics : List String
    pub dynamic_tool_specs : List (ToolSpec V)
    pub world : h.State

  abbrev pub is_setup : SessionRuntime → Bool
  is_setup s = elim s.state [ RuntimeState.setup ↦ true | _ ↦ false ]

  abbrev pub is_offline_demo : SessionRuntime → Bool
  is_offline_demo s = elim s.state [ RuntimeState.offline_demo ↦ true | _ ↦ false ]

  -- `SessionView::new`
  unfoldable pub new_view : SessionRuntime → List String
  new_view s =
      s.diagnostics
      ++ ("Profile: "
          ⧺ s.metadata.profile
          ⧺ "; model: "
          ⧺ s.metadata.model
          ⧺ "; mode: "
          ⧺ debug_mode s.mode
          ⧺ "; workspace: "
          ⧺ s.workspace)
        ∷ ("Tasks: " ⧺ decimal (length s.task_board.tasks))
        ∷ []

  unfoldable pub spoken : List (Message V) → List String
  spoken [] = []
  spoken (user content ∷ msgs) = ("User: " ⧺ content) ∷ spoken msgs
  spoken (assistant (some content) calls ∷ msgs) = ("Assistant: " ⧺ content) ∷ spoken msgs
  spoken (_ ∷ msgs) = spoken msgs

  abbrev is_empty : List (Message V) → Bool
  is_empty [] = true
  is_empty _ = false

  module _ (v : Services h) where
    unfoldable pub remember : List (Message V) → h.State → h.State
    unfolding spoken
    remember messages w =
        let summary = join "\n" (spoken messages) in
        if is_empty messages || is_blank summary
        then w
        else v.upsert_episode (take_chars 4000 summary) w

    unfoldable pub after_compact :
        SessionRuntime → List (Message V) × Result (Unit {0}) → SessionRuntime
    unfolding remember
    after_compact s (messages, Result.ok _) = record s {
      conversation = messages;
      world = remember messages s.world;
    }
    after_compact s (messages, _) = record s { conversation = messages }

    unfoldable pub compact_conversation : SessionRuntime → SessionRuntime
    unfolding after_compact
    compact_conversation s =
        after_compact s (compact v.transcript_chars s.policy.max_chars s.conversation)

    unfoldable pub set_live :
        SessionRuntime → Reply String h.State → Reply String (Option String) × SessionRuntime
    set_live s (ok w) = (ok none, record s { world = w })
    set_live s (err e) = (err e, s)

    unfoldable pub switch_model :
        CoreModelConfig → SessionRuntime → Reply String (Option String) × SessionRuntime
    unfolding set_live eq_ignore_ascii_case has_text
    switch_model cfg s =
        if str_eq cfg.provider "mock" || str_eq cfg.provider "offline"
        then (if not (is_offline_demo s)
            then (err "mock provider is only allowed with explicit --offline flag", s)
            else (ok none, record s { world = v.mock_model s.world }))
        else if not (
              has_text "localhost" cfg.base_url
              || has_text "127.0.0.1" cfg.base_url
              || eq_ignore_ascii_case cfg.api_key_env "none")
            && not (v.is_set cfg.api_key_env)
        then (
          err (
              "API key environment variable '" ⧺ cfg.api_key_env
              ⧺ "' is not set; export it or run 'darius config init'"),
          s,
        )
        else set_live s (v.live_model cfg s.world)

    unfoldable pub apply_model_config :
        CoreModelConfig → SessionRuntime → Reply String (Option String) × SessionRuntime
    unfolding switch_model
    apply_model_config cfg s = switch_model cfg (record s {
      world = v.save_model_config s.profile_dir cfg s.world;
      metadata = record s.metadata { model = cfg.model };
    })
