-- ===== src/Cli/Serve/Keeps/Commands.antt =====
-- The commands of the interface keep what the basic changes keep, and so do all steps of the loop.
use darius.Base.{
  ◌≡◌, refl, String, Bool, Option, none, some, List, [], ◌∷◌, ◌++◌, map, if_cases, Reply, ok, err,
  is_blank, trim, lines, decimal, length, len, ◌⧺◌,
}
use darius.Core.Commands.{CommandId, CommandInvocation}
use darius.Core.Models.{ModelConfig as CoreModelConfig}
use darius.Cognitive.Host.{Host}
use darius.Tui.Keys.{RuntimeCommand}
use darius.Cli.Session.{SessionRuntime, Services, Found, Pack, apply_model_config}
use darius.Cli.Control.{resolve}
use darius.Cli.Actor.{
  State, Running, idle, running, stopped, SessionActor, new_actor, Joining, submit,
  resolve_permission, set_mode, mode_of,
}
use darius.Cli.Slash.{
  dispatch, handle_slash, slash_running, slash_idle, slash_stopped, slash_compact, slash_memory,
  show_found, show_pack, slash_tasks, config_lines, select_model, applied, help, found_line,
  is_quit, task_lines, list,
}
use darius.Cli.Serve.{
  Step, commanded, closed, emitted, controlled, joined, Reached, first, further, begin_loop,
}
use darius.Cli.Serve.Keeps.{
  Keeps, status-P, status_all-P, guidance-P, submit_in-P, with_control-P, interrupt-P, shutdown-P,
  set_mode_to-P, titled-P, permissions-P,
}

module _ {V : Type 0} (h : Host V) (P : SessionActor h → Type 0) (k : Keeps h P) where
  module _ (v : Services h) where
    slash_running-P :
        (turn : Running h) (id : CommandId) (a : SessionActor h)
        → P a
        → P (slash_running h v turn id a)
    unfolding slash_running
    slash_running-P turn CommandId.stop a p = interrupt-P h P k a p
    slash_running-P turn CommandId.status a p =
        status-P h P k _ _ (status_all-P h P k turn.view a p)
    slash_running-P turn CommandId.permissions a p = permissions-P h P k a.state a p
    slash_running-P turn _ a p = k.notice _ a tt p

    show_found-P :
        (query : String) (r : Reply String (List Found)) (a : SessionActor h)
        → P a
        → P (show_found h v query r a)
    unfolding show_found
    show_found-P query (ok []) a p = status-P h P k _ a p
    show_found-P query (ok (r ∷ records)) a p =
        titled-P h P k
          ("Memory search for \"" ⧺ query ⧺ "\" (" ⧺ decimal (length (r ∷ records)) ⧺ " matches):")
          (map found_line (r ∷ records)) a p
    show_found-P query (err e) a p = k.notice _ a tt p

    slash_memory-P :
        (runtime : SessionRuntime h) (args : String) (a : SessionActor h)
        → P a
        → P (slash_memory h v runtime args a)
    unfolding slash_memory
    slash_memory-P runtime args a p =
        if_cases P (is_blank (trim args)) _ _ (λ _. status-P h P k _ a p)
          (λ _. show_found-P (trim args) (v.search (trim args) 10 runtime.world) a p)

    show_pack-P : (r : Reply String Pack) (a : SessionActor h) → P a → P (show_pack h v r a)
    unfolding show_pack
    show_pack-P (ok pack) a p =
        if_cases P (is_blank pack.plain) _ _ (λ _. status-P h P k _ a p)
          (λ _.
            titled-P h P k
              ("MemoryPack: "
                ⧺ decimal (len pack.plain)
                ⧺ " chars across "
                ⧺ decimal (length pack.record_ids)
                ⧺ " records")
              (map (λ line. "  " ⧺ line) (lines pack.plain)) a p)
    show_pack-P (err e) a p = k.notice _ a tt p

    slash_idle-P :
        (runtime : SessionRuntime h) (id : CommandId) (args : String) (a : SessionActor h)
        → a.state ≡ idle runtime
        → P a
        → P (slash_idle h v runtime id args a)
    unfolding slash_idle slash_compact slash_tasks set_mode
    slash_idle-P runtime CommandId.help args a e p = status-P h P k _ a p
    slash_idle-P runtime CommandId.clear args a e p = k.notice _ a tt p
    slash_idle-P runtime CommandId.compact args a e p =
        status-P h P k _ _ (k.session runtime _ a e p)
    slash_idle-P runtime CommandId.model args a e p = status-P h P k _ a p
    slash_idle-P runtime CommandId.mode args a e p =
        set_mode_to-P h P k runtime (mode_of runtime.mode args) a e p
    slash_idle-P runtime CommandId.permissions args a e p = permissions-P h P k (idle runtime) a p
    slash_idle-P runtime CommandId.memory args a e p = slash_memory-P runtime args a p
    slash_idle-P runtime CommandId.pack args a e p = show_pack-P (v.pack 4000 20 runtime.world) a p
    slash_idle-P runtime CommandId.tasks args a e p =
        k.notice _ _ tt (status_all-P h P k (task_lines (list runtime.task_board.tasks)) a p)
    slash_idle-P runtime CommandId.status args a e p =
        status_all-P h P k (runtime.diagnostics ++ "Running: false" ∷ []) a p
    slash_idle-P runtime CommandId.config args a e p =
        status_all-P h P k (config_lines h v runtime) a p
    slash_idle-P runtime CommandId.stop args a e p = p
    slash_idle-P runtime CommandId.quit args a e p = p

    slash_stopped-P : (id : CommandId) (a : SessionActor h) → P a → P (slash_stopped h v id a)
    unfolding slash_stopped
    slash_stopped-P CommandId.help a p = status-P h P k help a p
    slash_stopped-P CommandId.clear a p = k.notice _ a tt p
    slash_stopped-P _ a p = p

    handle_slash-P :
        (s : State h) (inv : CommandInvocation) (a : SessionActor h)
        → a.state ≡ s
        → P a
        → P (handle_slash h v s inv a)
    unfolding handle_slash
    handle_slash-P (running turn) inv a e p = slash_running-P turn inv.id a p
    handle_slash-P (idle runtime) inv a e p = slash_idle-P runtime inv.id inv.args a e p
    handle_slash-P stopped inv a e p = slash_stopped-P inv.id a p

    applied-P :
        (cfg : CoreModelConfig) (r : Reply String (Option String)) (a : SessionActor h)
        → P a
        → P (applied h v cfg r a)
    unfolding applied
    applied-P cfg (ok (some warning)) a p = status-P h P k _ a p
    applied-P cfg (ok none) a p = status-P h P k _ a p
    applied-P cfg (err e) a p = k.notice _ a tt p

    select_model-P :
        (s : State h) (cfg : CoreModelConfig) (a : SessionActor h)
        → a.state ≡ s
        → P a
        → P (select_model h v s cfg a)
    unfolding select_model
    select_model-P (idle runtime) cfg a e p =
        let r = apply_model_config h v cfg runtime in
        applied-P cfg r.0 _ (k.session runtime r.1 a e p)
    select_model-P (running turn) cfg a e p = p
    select_model-P stopped cfg a e p = p

    dispatch-P :
        (command : RuntimeCommand) (j : Joining h) (a : SessionActor h)
        → P a
        → P (dispatch h v command j a).1
    unfolding dispatch submit resolve_permission
    dispatch-P (RuntimeCommand.submit_goal text mode) j a p =
        submit_in-P h P k a.state text mode a refl p
    dispatch-P (RuntimeCommand.resolve_permission id choice) j a p =
        with_control-P h P k (resolve id choice) a.state a refl p
    dispatch-P RuntimeCommand.interrupt j a p = interrupt-P h P k a p
    dispatch-P RuntimeCommand.shutdown j a p = shutdown-P h P k j a p
    dispatch-P (RuntimeCommand.execute_slash inv) j a p =
        if_cases (λ (r : Bool × SessionActor h). P r.1) (is_quit inv.id) _ _
          (λ _. shutdown-P h P k j a p) (λ _. handle_slash-P a.state inv a refl p)
    dispatch-P (RuntimeCommand.select_model cfg) j a p = select_model-P a.state cfg a refl p

    step-P : (a after : SessionActor h) → Step h v a after → P a → P after
    step-P _ _ (commanded command j a n) p = dispatch-P command j a p
    step-P _ _ (closed j a n) p = shutdown-P h P k j a p
    step-P _ _ (emitted turn event a e) p = k.sink turn event a e p
    step-P _ _ (controlled turn c a e) p = k.control turn c a e p
    step-P _ _ (joined turn result a e) p = k.ends turn result a e p

    -- What holds before the loop, and is kept by the basic changes, holds in every state of the loop.
    pub reached-P :
        (runtime : SessionRuntime h) (a : SessionActor h)
        → P (new_actor h runtime 1)
        → Reached h v runtime a
        → P a
    unfolding begin_loop
    reached-P runtime _ p first = guidance-P h P k runtime (new_actor h runtime 1) p
    reached-P runtime _ p (further a after r step) = step-P a after step (reached-P runtime a p r)
