-- ===== src/Tui/Shown.antt =====
-- What the interface shows of a tool call: the events of src/agent_exec.rs and src/agent_outcome.rs of
-- crates/darius-cognitive, in `apply_event`.
use darius.Base.{
  ◌≡◌, refl, ap, ◌∙◌, String, Bool, true, false, Option, none, List, [], ◌∷◌, ◌++◌, map, str_eq,
  after_line_feed, take_chars,
}
use darius.Tools.{ToolCall, ToolOutcome}
use darius.Cognitive.Types.{UiEvent, DiffLine, Result, ok}
use darius.Cognitive.Conversation.{text_or_default}
use darius.Cognitive.Exec.{pure, raise, lift, ◌>>=◌, continue}
use darius.Cognitive.Host.{Host}
use darius.Cognitive.Policy.{preview_lines}
use darius.Cognitive.Calls.{
  Turn, Done, emit, push, emit_start, emit_end, emit_write_diff, push_result, record_outcome,
}
use darius.Tui.State.{AppState, ToolView, TranscriptItem, DiffView}
use darius.Tui.Events.{apply_event, end_tool, started_tool, line_view}
use darius.Tui.Turns.{apply_events, apply_events-append}

-- The item of a tool that has ended.
abbrev pub ended_tool : String → String → Bool → String → TranscriptItem
ended_tool name args_preview succeeded preview =
    TranscriptItem.tool
      (record { name = name; args_preview = args_preview; result = preview; ok = succeeded }) false

end_tool-cons :
    (succeeded : Bool) (preview : String) (item next : TranscriptItem) (items : List TranscriptItem)
    → end_tool succeeded preview (item ∷ next ∷ items)
      ≡ item ∷ end_tool succeeded preview (next ∷ items)
unfolding end_tool
end_tool-cons succeeded preview (TranscriptItem.tool view expanded) next items = refl
end_tool-cons succeeded preview _ next items = refl

end_tool-append :
    (succeeded : Bool) (preview : String) (items : List TranscriptItem) (view : ToolView)
    (expanded : Bool)
    → end_tool succeeded preview (items ++ TranscriptItem.tool view expanded ∷ [])
      ≡ items
        ++ TranscriptItem.tool (record view { ok = succeeded; result = preview }) expanded ∷ []
unfolding end_tool
end_tool-append succeeded preview [] view expanded = refl
end_tool-append succeeded preview (item ∷ []) view expanded =
    end_tool-cons succeeded preview item (TranscriptItem.tool view expanded) []
end_tool-append succeeded preview (item ∷ next ∷ items) view expanded =
    end_tool-cons succeeded preview item next (items ++ TranscriptItem.tool view expanded ∷ [])
    ∙ ap (λ l. item ∷ l) (end_tool-append succeeded preview (next ∷ items) view expanded)

-- What a result is shown as: whether it succeeded, and its text.
abbrev pub result_of : ToolOutcome → Bool × String
result_of (ToolOutcome.ok preview spilled) = (true, preview)
result_of (ToolOutcome.err message) = (false, message)
result_of ToolOutcome.interrupted = (false, "Interrupted")
result_of ToolOutcome.timed_out = (false, "Timed out")

abbrev pub writes_file : ToolOutcome → String → Bool
writes_file (ToolOutcome.ok preview spilled) name = str_eq name "write_file"
writes_file _ name = false

-- The start and the end of a tool, one behind the other.
start_end :
    (id name args_preview : String) (succeeded : Bool) (preview : String) (spilled : Option String)
    (s : AppState)
    → (apply_events
        (UiEvent.tool_start id name args_preview
          ∷ UiEvent.tool_end id succeeded preview spilled
          ∷ [])
        s).transcript
      ≡ s.transcript ++ ended_tool name args_preview succeeded preview ∷ []
unfolding apply_event started_tool
start_end id name args_preview succeeded preview spilled s =
    end_tool-append succeeded preview s.transcript _ false

-- A diff between them keeps the result from the tool.
end_behind_diff :
    (succeeded : Bool) (preview : String) (items : List TranscriptItem) (d : DiffView)
    → end_tool succeeded preview (items ++ TranscriptItem.diff d ∷ [])
      ≡ items ++ TranscriptItem.diff d ∷ []
unfolding end_tool
end_behind_diff succeeded preview [] d = refl
end_behind_diff succeeded preview (item ∷ []) d =
    end_tool-cons succeeded preview item (TranscriptItem.diff d) []
end_behind_diff succeeded preview (item ∷ next ∷ items) d =
    end_tool-cons succeeded preview item next (items ++ TranscriptItem.diff d ∷ [])
    ∙ ap (λ l. item ∷ l) (end_behind_diff succeeded preview (next ∷ items) d)

two_events :
    (es : List UiEvent) (a b : UiEvent) (s : AppState)
    → apply_events ((es ++ a ∷ []) ++ b ∷ []) s ≡ apply_event b (apply_event a (apply_events es s))
two_events es a b s =
    apply_events-append (es ++ a ∷ []) (b ∷ []) s
    ∙ ap (apply_event b) (apply_events-append es (a ∷ []) s)

module _ {V : Type 0} (h : Host V) (call : ToolCall V) (t : Turn h) where
  abbrev pub args_of : String
  args_of = h.redact_secrets (h.debug call.arguments)

  -- What `execute_calls` emits of a call that runs and has this outcome, with the events before it.
  abbrev pub reported : ToolOutcome → List UiEvent
  reported outcome = ((emit_start h call >>= λ _. record_outcome h outcome call) t).1.events

  abbrev start_event : UiEvent
  start_event = UiEvent.tool_start call.id call.name args_of

  abbrev started : Turn h
  started = record t { events = t.events ++ start_event ∷ [] }

  -- The events when the diff, if any, is emitted.
  abbrev behind_diff : String → Option String → Result (Done h) × Turn h → List UiEvent
  behind_diff preview spilled r =
      (continue r
        (λ _. push_result h call preview >>= λ _. emit_end h call.id true preview spilled)).1.events

  no_diff :
      (preview : String)
      → str_eq call.name "write_file" ≡ false
      → emit_write_diff h call preview started ≡ (ok tt, started)
  unfolding emit_write_diff pure
  no_diff preview w = rw w refl

  diff_of :
      (preview : String) (ls : List DiffLine)
      → str_eq call.name "write_file" ≡ true
      → preview_lines (after_line_feed preview) ≡ ok ls
      → emit_write_diff h call preview started ≡ (
        ok tt,
        record started {
          events =
              started.events
              ++ UiEvent.diff
                  (text_or_default (h.path_argument call.arguments))
                  (take_chars 200 preview)
                  ls
                ∷ [];
        },
      )
  unfolding emit_write_diff lift emit ◌>>=◌
  diff_of preview ls w e = rw (w, e) refl

  module _ (s : AppState) where
    -- The transcript of the interface behind the events so far.
    abbrev pub shown_before : List TranscriptItem
    shown_before = (apply_events t.events s).transcript

    ends_as :
        (outcome : ToolOutcome) (succeeded : Bool) (preview : String) (spilled : Option String)
        → reported outcome
          ≡ (t.events ++ start_event ∷ [])
            ++ UiEvent.tool_end call.id succeeded preview spilled ∷ []
        → (apply_events (reported outcome) s).transcript
          ≡ shown_before ++ ended_tool call.name args_of succeeded preview ∷ []
    ends_as outcome succeeded preview spilled e =
        ap (λ es. (apply_events es s).transcript) e
        ∙ ap (λ (u : AppState). u.transcript) (two_events t.events start_event _ s)
        ∙ start_end call.id call.name args_of succeeded preview spilled (apply_events t.events s)

    -- A call that runs, and that is not a file written with success, is shown as one more item of the
    -- interface's transcript: the tool with its name, its redacted arguments, and the result of its
    -- outcome, redacted.
    pub reported-shown :
        (outcome : ToolOutcome)
        → writes_file outcome call.name ≡ false
        → (apply_events (reported outcome) s).transcript
          ≡ shown_before
            ++ ended_tool call.name args_of
                (result_of outcome).0
                (h.redact_secrets (result_of outcome).1)
              ∷ []
    unfolding record_outcome emit_start emit_end push_result push emit raise ◌>>=◌
    reported-shown (ToolOutcome.ok preview spilled) w =
        ends_as (ToolOutcome.ok preview spilled) true (h.redact_secrets preview) spilled
          (ap (behind_diff preview spilled) (no_diff preview w))
    reported-shown (ToolOutcome.err message) w =
        ends_as (ToolOutcome.err message) false (h.redact_secrets message) none refl
    reported-shown ToolOutcome.interrupted w =
        ends_as ToolOutcome.interrupted false (h.redact_secrets "Interrupted") none refl
    reported-shown ToolOutcome.timed_out w =
        ends_as ToolOutcome.timed_out false (h.redact_secrets "Timed out") none refl

    -- A file that is written with success is shown by the started tool and the diff, and its result is
    -- not shown: the item of the tool keeps the empty result that it started with. The condition is that
    -- the lines of the preview have no panic.
    pub reported-hidden :
        (preview : String) (spilled : Option String) (ls : List DiffLine)
        → str_eq call.name "write_file" ≡ true
        → preview_lines (after_line_feed preview) ≡ ok ls
        → (apply_events (reported (ToolOutcome.ok preview spilled)) s).transcript
          ≡ (shown_before ++ started_tool call.name args_of ∷ [])
            ++ TranscriptItem.diff (record {
              file = text_or_default (h.path_argument call.arguments);
              summary = take_chars 200 preview;
              lines = map line_view ls;
            })
              ∷ []
    unfolding record_outcome emit_start emit_end push_result push emit ◌>>=◌ apply_event
    reported-hidden preview spilled ls w e =
        ap (λ es. (apply_events es s).transcript)
          (ap (behind_diff preview spilled) (diff_of preview ls w e))
        ∙ ap (λ (u : AppState). u.transcript)
            (apply_events-append ((t.events ++ start_event ∷ []) ++ diff_event ∷ [])
              (end_event ∷ []) s)
        ∙ ap (λ (u : AppState). (apply_event end_event u).transcript)
            (two_events t.events start_event diff_event s)
        ∙ end_behind_diff true (h.redact_secrets preview)
            (shown_before ++ started_tool call.name args_of ∷ []) _
      where
        end_event : UiEvent
        end_event = UiEvent.tool_end call.id true (h.redact_secrets preview) spilled

        diff_event : UiEvent
        diff_event =
            UiEvent.diff (text_or_default (h.path_argument call.arguments)) (take_chars 200 preview)
              ls
