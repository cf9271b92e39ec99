-- ===== src/Lib.antt =====
-- Verification library of Darius, a coding agent: a loop that sends a conversation to a model, runs
-- the tools that the model calls, and commits the conversation; the services of its daemon; and the
-- terminal interface that shows the events of the loop and takes the keys of the user.
--
-- The parts, by the files of the repository:
--
-- Tools            crates/darius-tools: ToolCall, ToolOutcome, ToolRisk and ToolRegistry (src/lib.rs), the
--                  allowlist of tools and its dynamic table (src/model_tools.rs), and the dispatch of a
--                  call of the model (src/model_dispatch.rs). Handlers and the shell are parameters.
--   Board          the task board of a session (TaskBoard of src/lib.rs).
-- Cognitive        crates/darius-cognitive, the agent loop:
--   Types          the values: messages, outputs of the model, errors, events, policies.
--   Conversation   conversation/validate.rs, agent_validate.rs and ModelOutput::validate. Ids, Scan and
--                  Sound tell what the loop of `validate` accepts without the loop (Spec), and Extend
--                  how a valid transcript grows.
--   Transcript     the operations of `Conversation` (conversation.rs).
--   Compact        agent_compact.rs and agent_compact/shrink.rs.
--   Compress       compress.rs: a transcript cut to a head and a tail. Longest, Shape and
--                  Size are about it.
--   Exec           the state and result monad of a turn, with its rules for triples.
--   Host           what the loop uses from outside: RunControl, AsyncModel, the memory, redaction.
--   Policy         execution_policy.rs, the diff of agent_events.rs, the prompt of system_prompt.rs.
--   Calls          agent_exec.rs, agent_outcome.rs, agent_events.rs: one call with all its branches.
--   Loop           agent_loop.rs, agent_turn.rs, agent_finish.rs: the turn.
-- Daemon           crates/darius-daemon:
--   Budget         model_router/budget.rs with budget/allocation.rs and budget/reservation.rs.
--   Kanban         kanban.rs.
--   Quotas         a2a_quotas.rs.
--   Cron           cron.rs.
--   Cache          cache.rs.
-- Hashline         crates/darius-hashline: edits that an anchor ties to a content. Edits and Once are
--                  about them.
-- Safety           crates/darius-safety: the gate of writes to instruction files (gates.rs).
-- Core             crates/darius-core: the profiles of providers (src/providers.rs, src/providers/), the
--                  catalog of models (src/config.rs), and the slash commands (src/commands.rs).
-- Tui              crates/darius-tui:
--   State          the state of src/app.rs, its actions and its effects.
--   Composer       the edits of the line of input; Cursor and Zipper are about them.
--   Dialogs        `reduce` while a permission is asked for or a model is picked.
--   Palette        `reduce` while the palette of commands is open.
--   Reduce         `reduce` in its normal mode, and as a whole.
--   Events         `apply_event`, and `apply_runtime_event` of src/app_events.rs.
--   Queue          the small operations on the state beside these.
--   Keys           `map_key` of src/input.rs, and the parts of the loop of src/terminal.rs.
--   Guard          the guard of src/terminal.rs that takes the terminal's modes back.
--   Sound, Refines, Chooser, Turns and Shown are about these; the last two join them to Cognitive.
-- Cli              crates/darius-cli:
--   Session        the session of src/runtime.rs, its compaction and the change of its model.
--   Control        `ChannelRunControl` of src/tui_runtime.rs: the approvals of tools. Answered,
--                  Granted, Fresh and Remembers are about it.
--   Actor          src/tui_runtime/: the states of the actor and its operations.
--   Slash          src/command_handler.rs, and `dispatch` of src/tui_runtime/dispatch.rs.
--   Serve          the loop of src/tui_runtime/actor.rs as steps. Keeps carries a property over all
--                  steps, Over and Closes are about the events; Notices and Agrees join it to Tui.
--   Turn           the task of src/tui_runtime/turn.rs, which runs Cognitive.Loop on the session, and
--                  goals one after the other. Extends and Served are about these.
-- Examples         small runs of each part, and the theorems at concrete values.
-- Base             the names that all share: numbers, texts by characters, lists, and maps by key.
--
-- How they interact: a turn (Cognitive.Loop) keeps a `Turn`, which is the transcript that it extends,
-- the events that the sink got, and the state of all that is outside. Every call of the host takes
-- that state and gives a new one, so nothing is assumed of two polls of a token or a table. A round
-- asks the model with a compacted view, checks the output against the transcript, and hands the calls
-- to Cognitive.Calls, which asks the mode and the user and then Tools. `finish` commits the
-- transcript to the conversation only where the whole turn succeeded.
--
-- The interface (Tui) gets the events of turns, each with the number of its turn, through a queue, and
-- gives effects, which become commands for the runtime. A lower-case text (`str::to_lowercase`) is a
-- parameter of the searches in it. The line of input is edited by characters as in the code; an index
-- out of range is a panic, `none`. Lengths of texts in memory are far below 2^63, so that sums of them
-- are plain.
--
-- The actor (Cli) is between the two. It owns the session, or a task has it for one turn; its events and
-- those of the task go to the interface in one order. The commands of the interface, the events of the
-- task, and the task's end come in any order, which the steps of Cli.Serve tell. What the task does
-- while the actor joins it in a shutdown is an argument of the step. A tool call that needs a permission
-- waits in the task; what the actor does between two looks is an argument, too.
--
-- Numbers are natural numbers; where the code adds on machine words, the wrap is written out
-- (`% 2 ^ 64`, `% 2 ^ 32`) or the sum saturates as in the code. A panic is a result of its own.
-- An operation under one lock is one step. Maps are association lists with one entry for a key, which
-- have an order that the code's maps do not have; no result depends on it.
--
-- Fuel: the rounds of a turn are structural on their number, which is at most 12, as in the code. The
-- inner loop of the compaction runs on the length of the content plus one, since each cut of a content
-- that is not empty makes it shorter.
--
-- Not modelled: serde_json (the length of a serialized view is a parameter), blake3 (a parameter), the
-- clock (an argument), the files on the disk, the terminal and the drawing on it, the wires of the providers, the memory's
-- database, and the session keys of provider-side caches.
pub mod Base
pub mod Core
pub mod Tools
pub mod Cognitive
pub mod Daemon
pub mod Hashline
pub mod Safety
pub mod Tui
pub mod Cli
pub mod Examples
