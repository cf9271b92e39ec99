-- ===== src/Core/Commands.antt =====
-- crates/darius-core/src/commands.rs and src/slash.rs: the registry of slash commands, its search, and
-- the parser of an invocation. `lower` is `str::to_lowercase`, whose tables are those of Unicode.
pub mod Parsing
use darius.Base.{
  ◌≡◌, ℕ, String, ◌⧺◌, Bool, true, false, not, ◌&&◌, ◌||◌, Option, none, some, List, [], ◌∷◌,
  str_eq, is_blank, if◌then◌else◌, has_text, first_is, line_rest, trim, trim_start,
  trim_start_matches, strip_char, split_space, after_char, find, keep, ◌>>=◌,
}
use Prim.Native.String.{String as Text}

pub data CommandId : Type 0 where
  help clear compact model mode permissions memory pack tasks status config stop quit : CommandId

pub record CommandInvocation : Type 0 where
  pub id : CommandId
  pub name : String
  pub args : String

pub record CommandSpec : Type 0 where
  pub id : CommandId
  pub name : String
  pub description : String
  pub accepts_args : Bool

abbrev pub is_model : CommandId → Bool
is_model model = true
is_model _ = false

abbrev pub is_mode : CommandId → Bool
is_mode mode = true
is_mode _ = false

spec : CommandId → String → String → Bool → CommandSpec
spec id name description accepts_args = record {
  id = id;
  name = name;
  description = description;
  accepts_args = accepts_args;
}

unfoldable pub commands : List CommandSpec
unfolding spec
commands =
    spec help "/help" "Show commands and keyboard shortcuts" false
    ∷ spec clear "/clear" "Clear the visible transcript" false
    ∷ spec compact "/compact" "Compact session context into memory" false
    ∷ spec model "/model" "Show or select provider/model" true
    ∷ spec mode "/mode" "Cycle or select auto/plan" true
    ∷ spec permissions "/permissions" "Show the current permission policy" false
    ∷ spec memory "/memory" "Search durable memory" true
    ∷ spec pack "/pack" "Show the bounded MemoryPack" false
    ∷ spec tasks "/tasks" "Show the current task board" false
    ∷ spec status "/status" "Show profile/model/context/kernel status" false
    ∷ spec config "/config" "Show effective profile configuration" false
    ∷ spec stop "/stop" "Interrupt the active turn" false
    ∷ spec quit "/quit" "Exit Darius" false
    ∷ []

-- Whether the characters of a text stand in another one in their order.
unfoldable pub in_order : String → String → Bool
unfolding after_char
in_order Text.[] t = true
in_order (Text.◌∷◌ c q) t = elim (after_char c t) [ none ↦ false | some rest ↦ in_order q rest ]

module _ (lower : String → String) where
  unfoldable pub fuzzy_match : String → String → Bool
  unfolding trim_start_matches has_text in_order
  fuzzy_match query target =
      let q_clean = lower (trim_start_matches b'-' (trim_start_matches b'/' query)) in
      let t_clean = lower (trim_start_matches b'/' target) in
      if is_blank q_clean
      then true
      else if has_text q_clean t_clean
      then true
      else in_order q_clean t_clean

  unfoldable pub spec_matches : Bool → String → CommandSpec → Bool
  unfolding fuzzy_match trim_start_matches
  spec_matches is_slash q_clean cmd =
      let name_clean = trim_start_matches b'/' cmd.name in
      if is_slash
      then fuzzy_match q_clean name_clean
      else fuzzy_match q_clean name_clean || fuzzy_match q_clean cmd.description

  unfoldable pub filter : String → List CommandSpec
  unfolding spec_matches trim commands trim_start_matches
  filter query =
      let q = trim query in
      if is_blank q || str_eq q "/" || str_eq q "-"
      then commands
      else keep
          (spec_matches (first_is b'/' q || first_is b'-' q)
            (lower (trim_start_matches b'-' (trim_start_matches b'/' q))))
          commands

-- `if let Some(s) = strip_prefix('/') … else if let Some(s) = strip_prefix('-')`.
unfoldable pub command_text : String → Option String
unfolding strip_char
command_text s = elim (strip_char b'/' s) [ some rest ↦ some rest | none ↦ strip_char b'-' s ]

-- `c.name.get(1..) == Some(cmd_name)`
names : String → Option String → Bool
names cmd_name none = false
names cmd_name (some rest) = str_eq rest cmd_name

unfoldable pub parse : String → Option CommandSpec
unfolding command_text trim trim_start split_space commands names
parse input = command_text (trim input) >>= λ rest.
    let cmd_name = (split_space (trim_start rest)).0 in
    if is_blank cmd_name
    then none
    else find (λ (c : CommandSpec). names cmd_name (line_rest c.name)) commands

unfoldable pub dash_alias_to_slash : String → String
unfolding strip_char
dash_alias_to_slash input = elim (strip_char b'-' input) [
  | some rest ↦ Text.◌∷◌ "/" rest
  | none ↦ input
]

pub data Parsed : Type 0 where
  invocation : CommandInvocation → Parsed
  failure : String → Parsed

-- `matches!(args, "" | "auto" | "plan")`
unfoldable pub mode_args : String → Bool
mode_args args = is_blank args || str_eq args "auto" || str_eq args "plan"

-- The checks of a command that was found.
unfoldable pub invoke : CommandSpec → String → Parsed
unfolding mode_args
invoke spec args =
    if not spec.accepts_args && not (is_blank args)
    then failure (spec.name ⧺ " does not accept arguments")
    else if is_mode spec.id && not (mode_args args)
    then failure "/mode accepts only auto or plan"
    else invocation (record { id = spec.id; name = spec.name; args = args })

unfoldable pub found_or_unknown : String → String → Option CommandSpec → Parsed
unfolding invoke
found_or_unknown name args none = failure ("unknown command: " ⧺ name)
found_or_unknown name args (some spec) = invoke spec args

unfoldable pub parse_invocation : String → Parsed
unfolding dash_alias_to_slash trim split_space commands found_or_unknown
parse_invocation input =
    let parts = split_space (dash_alias_to_slash (trim input)) in
    found_or_unknown parts.0 (trim parts.1)
      (find (λ (item : CommandSpec). str_eq item.name parts.0) commands)
