-- ===== src/Cognitive/Conversation/Sound.antt =====
-- `validate` accepts exactly the valid transcripts.
use darius.Base.{
  ℕ, suc, ◌≡◌, refl, sym, ◌∙◌, String, true, false, ◌||◌, Option, List, [], ◌∷◌, ◌++◌, arith,
  contains, contains-append, is_blank, Bool-cases, inl, inr, ◌↔◌,
}
use darius.Tools.{ToolCall}
use darius.Cognitive.Types.{Message, system, user, assistant, tool, ok, >>=-ok}
use darius.Cognitive.Conversation.{register_calls, register_result, scan, resolve, validate}
use darius.Cognitive.Conversation.Ids.{
  ids, call_ids, result_ids, IsFresh, IsCausal, IsFresh-same, IsFresh-append, IsFresh-split,
}
use darius.Cognitive.Conversation.Spec.{IsValid}
use darius.Cognitive.Conversation.Scan.{
  keys, IsBelow, IsBelow-suc, AreNamed, AreNamed-append, AreNamed-split, AreNamed-contains,
  record_calls, contains-record_calls, record_calls-IsBelow, register_sound, register_complete,
  register_result_sound, register_result_complete, resolve_sound, resolve_complete,
}

abbrev SeenNamed : List String → Type 0
SeenNamed seen = (x : String) → contains x seen ≡ true → is_blank x ≡ false

module _ {V : Type 0} where
  -- The messages to come fit behind the calls `seen` and the results `given`.
  abbrev Fits : List String → List String → List (Message V) → Type 0
  Fits seen given msgs =
      AreNamed (call_ids msgs)
      × IsFresh seen (call_ids msgs)
      × IsFresh given (result_ids msgs)
      × IsCausal seen msgs

  Fits-assistant :
      (seen given : List String) (content : Option String) (tool_calls : List (ToolCall V))
      (msgs : List (Message V))
      → AreNamed (ids tool_calls)
      → IsFresh seen (ids tool_calls)
      → Fits (seen ++ ids tool_calls) given msgs
      → Fits seen given (assistant content tool_calls ∷ msgs)
  Fits-assistant seen given content tool_calls msgs named fresh f = (
    AreNamed-append (ids tool_calls) (call_ids msgs) named f.0,
    IsFresh-append seen (ids tool_calls) (call_ids msgs) fresh f.1,
    f.2,
    f.3,
  )

  Fits-behind :
      (seen given : List String) (content : Option String) (tool_calls : List (ToolCall V))
      (msgs : List (Message V))
      → Fits seen given (assistant content tool_calls ∷ msgs)
      → Fits (seen ++ ids tool_calls) given msgs
  Fits-behind seen given content tool_calls msgs f = (
    (AreNamed-split (ids tool_calls) (call_ids msgs) f.0).1,
    (IsFresh-split seen (ids tool_calls) (call_ids msgs) f.1).1,
    f.2,
    f.3,
  )

  abbrev calls_after : ℕ → List (Message V) → List (String × ℕ) → List (String × ℕ)
  calls_after idx [] calls = calls
  calls_after idx (assistant content tool_calls ∷ msgs) calls =
      calls_after (suc idx) msgs (record_calls idx tool_calls calls)
  calls_after idx (tool id name content ∷ msgs) calls = calls_after (suc idx) msgs calls
  calls_after idx (system content ∷ msgs) calls = calls_after (suc idx) msgs calls
  calls_after idx (user content ∷ msgs) calls = calls_after (suc idx) msgs calls

  abbrev results_after : List (Message V) → List String → List String
  results_after [] results = results
  results_after (assistant content tool_calls ∷ msgs) results = results_after msgs results
  results_after (tool id name content ∷ msgs) results = results_after msgs (id ∷ results)
  results_after (system content ∷ msgs) results = results_after msgs results
  results_after (user content ∷ msgs) results = results_after msgs results

  contains-results_after :
      (x : String) (msgs : List (Message V)) (results : List String)
      → contains x (results_after msgs results)
        ≡ (contains x results || contains x (result_ids msgs))
  contains-results_after x [] results = ground arith
  contains-results_after x (assistant content tool_calls ∷ msgs) results =
      contains-results_after x msgs results
  contains-results_after x (tool id name content ∷ msgs) results =
      ground (arith, contains-results_after x msgs (id ∷ results))
  contains-results_after x (system content ∷ msgs) results = contains-results_after x msgs results
  contains-results_after x (user content ∷ msgs) results = contains-results_after x msgs results

  contains-calls_after :
      (x : String) (idx : ℕ) (msgs : List (Message V)) (calls : List (String × ℕ))
      → contains x (keys (calls_after idx msgs calls))
        ≡ (contains x (keys calls) || contains x (call_ids msgs))
  contains-calls_after x idx [] calls = ground arith
  contains-calls_after x idx (assistant content tool_calls ∷ msgs) calls = ground (
    arith,
    contains-calls_after x (suc idx) msgs (record_calls idx tool_calls calls),
    contains-record_calls x idx tool_calls calls,
    contains-append x (ids tool_calls) (call_ids msgs),
  )
  contains-calls_after x idx (tool id name content ∷ msgs) calls =
      contains-calls_after x (suc idx) msgs calls
  contains-calls_after x idx (system content ∷ msgs) calls =
      contains-calls_after x (suc idx) msgs calls
  contains-calls_after x idx (user content ∷ msgs) calls =
      contains-calls_after x (suc idx) msgs calls

  record_calls-SameTexts :
      (idx : ℕ) (tool_calls : List (ToolCall V)) (calls : List (String × ℕ)) (seen : List String)
      → ((x : String) → contains x (keys calls) ≡ contains x seen)
      → (x : String)
      → contains x (keys (record_calls idx tool_calls calls)) ≡ contains x (seen ++ ids tool_calls)
  record_calls-SameTexts idx tool_calls calls seen same x = ground (
    arith,
    contains-record_calls x idx tool_calls calls,
    contains-append x seen (ids tool_calls),
    same x,
  )

  scan_sound :
      (idx : ℕ) (calls : List (String × ℕ)) (results : List String) (msgs : List (Message V))
      (found : List (String × ℕ) × List String) (seen : List String)
      → scan idx calls results msgs ≡ ok found
      → IsBelow idx calls
      → ((x : String) → contains x (keys calls) ≡ contains x seen)
      → Fits seen results msgs × (found ≡ (calls_after idx msgs calls, results_after msgs results))
  unfolding scan register_result
  scan_sound idx calls results [] found seen e below same = ((tt, tt, tt, tt), ground arith)
  scan_sound idx calls results (assistant content tool_calls ∷ msgs) found seen e below same =
      let (calls', reg, rest) =
        >>=-ok (register_calls idx tool_calls calls) (λ calls. scan (suc idx) calls results msgs)
          e in
      let (named, fresh, eq) = register_sound idx tool_calls calls calls' reg in
      let (fits, found_eq) =
        scan_sound (suc idx) (record_calls idx tool_calls calls) results msgs found
          (seen ++ ids tool_calls) (rw eq rest)
          (record_calls-IsBelow idx tool_calls calls (IsBelow-suc idx calls below))
          (record_calls-SameTexts idx tool_calls calls seen same) in
      (
        Fits-assistant seen results content tool_calls msgs named
            (IsFresh-same (keys calls) seen (ids tool_calls) (λ x. sym (same x)) fresh) fits,
        found_eq,
      )
  scan_sound idx calls results (tool id name content ∷ msgs) found seen e below same =
      let (results', reg, rest) =
        >>=-ok (register_result idx id calls results) (λ results. scan (suc idx) calls results msgs)
          e in
      let (fresh, called, eq) = register_result_sound idx id calls results results' below reg in
      let (fits, found_eq) =
        scan_sound (suc idx) calls (id ∷ results) msgs found seen (rw (sym eq) rest)
          (IsBelow-suc idx calls below) same in
      ((fits.0, fits.1, (fresh, fits.2), (sym (same id) ∙ called, fits.3)), found_eq)
  scan_sound idx calls results (system content ∷ msgs) found seen e below same =
      scan_sound (suc idx) calls results msgs found seen e (IsBelow-suc idx calls below) same
  scan_sound idx calls results (user content ∷ msgs) found seen e below same =
      scan_sound (suc idx) calls results msgs found seen e (IsBelow-suc idx calls below) same

  scan_complete :
      (idx : ℕ) (calls : List (String × ℕ)) (results : List String) (msgs : List (Message V))
      (seen : List String)
      → Fits seen results msgs
      → SeenNamed seen
      → IsBelow idx calls
      → ((x : String) → contains x (keys calls) ≡ contains x seen)
      → scan idx calls results msgs ≡ ok (calls_after idx msgs calls, results_after msgs results)
  unfolding scan
  scan_complete idx calls results [] seen fits named below same = refl
  scan_complete idx calls results (assistant content tool_calls ∷ msgs) seen fits named below same =
      rw
        (register_complete idx tool_calls calls new_named (
          IsFresh-same seen (keys calls) (ids tool_calls) same
            (IsFresh-split seen (ids tool_calls) (call_ids msgs) fits.1).0))
        (scan_complete (suc idx) (record_calls idx tool_calls calls) results msgs
          (seen ++ ids tool_calls) (Fits-behind seen results content tool_calls msgs fits)
          (λ x m. elim (Bool-cases (contains x seen)) [
            | inl old ↦ named x old
            | inr new ↦
                AreNamed-contains x (ids tool_calls) new_named
                  (ground (arith, contains-append x seen (ids tool_calls)))
          ])
          (record_calls-IsBelow idx tool_calls calls (IsBelow-suc idx calls below))
          (record_calls-SameTexts idx tool_calls calls seen same))
    where
      new_named : AreNamed (ids tool_calls)
      new_named = (AreNamed-split (ids tool_calls) (call_ids msgs) fits.0).0
  scan_complete idx calls results (tool id name content ∷ msgs) seen fits named below same =
      rw
        (register_result_complete idx id calls results below (named id fits.3.0) fits.2.0
          (same id ∙ fits.3.0))
        (scan_complete (suc idx) calls (id ∷ results) msgs seen
          ((fits.0, fits.1, fits.2.1, fits.3.1)) named (IsBelow-suc idx calls below) same)
  scan_complete idx calls results (system content ∷ msgs) seen fits named below same =
      scan_complete (suc idx) calls results msgs seen fits named (IsBelow-suc idx calls below) same
  scan_complete idx calls results (user content ∷ msgs) seen fits named below same =
      scan_complete (suc idx) calls results msgs seen fits named (IsBelow-suc idx calls below) same

  validate_sound : (msgs : List (Message V)) → validate msgs ≡ ok tt → IsValid msgs
  unfolding validate
  validate_sound msgs e =
      let (found, scanned, resolved) =
        >>=-ok (scan 0 [] [] msgs) (λ found. resolve found.0 found.1) e in
      let (fits, eq) = scan_sound 0 [] [] msgs found [] scanned tt (λ x. refl) in
      record {
        named = fits.0;
        fresh_calls = fits.1;
        fresh_results = fits.2;
        causal = fits.3;
        answered = λ id called.
            sym (contains-results_after id msgs [])
            ∙ resolve_sound (calls_after 0 msgs []) (results_after msgs []) id (rw eq at resolved)
                (contains-calls_after id 0 msgs [] ∙ called);
      }

  validate_complete : (msgs : List (Message V)) → IsValid msgs → validate msgs ≡ ok tt
  unfolding validate
  validate_complete msgs v =
      rw
        (scan_complete 0 [] [] msgs [] ((v.named, v.fresh_calls, v.fresh_results, v.causal))
          (λ x m. cc m) tt (λ x. refl))
        (resolve_complete (calls_after 0 msgs []) (results_after msgs []) (λ id called.
          contains-results_after id msgs []
          ∙ v.answered id (sym (contains-calls_after id 0 msgs []) ∙ called)))

  -- `validate` accepts a transcript exactly when every call has a non-empty identifier of its own
  -- and a result, and every result is the only one of a call that stands before it.
  pub validate_exact : (msgs : List (Message V)) → (validate msgs ≡ ok tt) ↔ IsValid msgs
  validate_exact msgs = (validate_sound msgs, validate_complete msgs)
