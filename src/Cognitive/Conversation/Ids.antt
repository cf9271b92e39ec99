-- ===== src/Cognitive/Conversation/Ids.antt =====
-- The identifiers of a transcript, and what it means that they are new, told without `validate`.
use darius.Base.{
  ◌≡◌, refl, sym, ◌∙◌, String, true, false, List, [], ◌∷◌, ◌++◌, append_assoc, append-nil, arith,
  eq_refl, contains, contains-append,
}
use darius.Tools.{ToolCall}
use darius.Cognitive.Types.{Message, system, user, assistant, tool}

module _ {V : Type 0} where
  abbrev pub ids : List (ToolCall V) → List String
  ids [] = []
  ids (call ∷ calls) = call.id ∷ ids calls

  -- The identifiers that the calls of a transcript give, in order.
  abbrev pub call_ids : List (Message V) → List String
  call_ids [] = []
  call_ids (assistant content calls ∷ msgs) = ids calls ++ call_ids msgs
  call_ids (tool id name content ∷ msgs) = call_ids msgs
  call_ids (system content ∷ msgs) = call_ids msgs
  call_ids (user content ∷ msgs) = call_ids msgs

  -- The identifiers that the results of a transcript answer, in order.
  abbrev pub result_ids : List (Message V) → List String
  result_ids [] = []
  result_ids (assistant content calls ∷ msgs) = result_ids msgs
  result_ids (tool id name content ∷ msgs) = id ∷ result_ids msgs
  result_ids (system content ∷ msgs) = result_ids msgs
  result_ids (user content ∷ msgs) = result_ids msgs

  -- Every result stands behind the call that it answers; `seen` are the calls before.
  abbrev pub IsCausal : List String → List (Message V) → Type 0
  IsCausal seen [] = Unit
  IsCausal seen (assistant content calls ∷ msgs) = IsCausal (seen ++ ids calls) msgs
  IsCausal seen (tool id name content ∷ msgs) = (contains id seen ≡ true) × IsCausal seen msgs
  IsCausal seen (system content ∷ msgs) = IsCausal seen msgs
  IsCausal seen (user content ∷ msgs) = IsCausal seen msgs

  pub call_ids-append :
      (xs ys : List (Message V)) → call_ids (xs ++ ys) ≡ call_ids xs ++ call_ids ys
  call_ids-append [] ys = refl
  call_ids-append (assistant content calls ∷ xs) ys =
      rw (call_ids-append xs ys) (sym (append_assoc (ids calls) (call_ids xs) (call_ids ys)))
  call_ids-append (tool id name content ∷ xs) ys = call_ids-append xs ys
  call_ids-append (system content ∷ xs) ys = call_ids-append xs ys
  call_ids-append (user content ∷ xs) ys = call_ids-append xs ys

  pub result_ids-append :
      (xs ys : List (Message V)) → result_ids (xs ++ ys) ≡ result_ids xs ++ result_ids ys
  result_ids-append [] ys = refl
  result_ids-append (assistant content calls ∷ xs) ys = result_ids-append xs ys
  result_ids-append (tool id name content ∷ xs) ys = rw (result_ids-append xs ys)
  result_ids-append (system content ∷ xs) ys = result_ids-append xs ys
  result_ids-append (user content ∷ xs) ys = result_ids-append xs ys

  pub IsCausal-append :
      (seen : List String) (xs ys : List (Message V))
      → IsCausal seen xs
      → IsCausal (seen ++ call_ids xs) ys
      → IsCausal seen (xs ++ ys)
  IsCausal-append seen [] ys a b = rw append-nil at b
  IsCausal-append seen (assistant content calls ∷ xs) ys a b =
      IsCausal-append (seen ++ ids calls) xs ys a
        (rw (append_assoc seen (ids calls) (call_ids xs)) b)
  IsCausal-append seen (tool id name content ∷ xs) ys a b = (a.0, IsCausal-append seen xs ys a.1 b)
  IsCausal-append seen (system content ∷ xs) ys a b = IsCausal-append seen xs ys a b
  IsCausal-append seen (user content ∷ xs) ys a b = IsCausal-append seen xs ys a b

-- Each text is new with respect to `seen` and to those before it.
abbrev pub IsFresh : List String → List String → Type 0
IsFresh seen [] = Unit
IsFresh seen (x ∷ xs) = (contains x seen ≡ false) × IsFresh (x ∷ seen) xs

-- Only what `seen` holds matters.
pub IsFresh-same :
    (seen other xs : List String)
    → ((x : String) → contains x other ≡ contains x seen)
    → IsFresh seen xs
    → IsFresh other xs
IsFresh-same seen other [] same h = tt
IsFresh-same seen other (x ∷ xs) same h =
    (same x ∙ h.0, IsFresh-same (x ∷ seen) (x ∷ other) xs (λ y. rw (same y)) h.1)

-- New texts that miss `more` are new with respect to `more` too.
pub IsFresh-more :
    (seen more xs : List String)
    → ((x : String) → contains x xs ≡ true → contains x more ≡ false)
    → IsFresh seen xs
    → IsFresh (seen ++ more) xs
IsFresh-more seen more [] miss h = tt
IsFresh-more seen more (x ∷ xs) miss h = (
  ground (arith, contains-append x seen more, miss x, eq_refl x),
  IsFresh-more (x ∷ seen) more xs (λ y m. miss y (ground (arith, m))) h.1,
)

pub IsFresh-append :
    (seen xs ys : List String) → IsFresh seen xs → IsFresh (seen ++ xs) ys → IsFresh seen (xs ++ ys)
IsFresh-append seen [] ys a b = rw append-nil at b
IsFresh-append seen (x ∷ xs) ys a b = (
  a.0,
  IsFresh-append (x ∷ seen) xs ys a.1 (
      IsFresh-same (seen ++ x ∷ xs) (x ∷ (seen ++ xs)) ys
        (λ y. ground (arith, contains-append y seen (x ∷ xs), contains-append y seen xs)) b),
)

pub IsFresh-split :
    (seen xs ys : List String) → IsFresh seen (xs ++ ys) → IsFresh seen xs × IsFresh (seen ++ xs) ys
IsFresh-split seen [] ys h = (tt, rw append-nil h)
IsFresh-split seen (x ∷ xs) ys h =
    let (a, b) = IsFresh-split (x ∷ seen) xs ys h.1 in
    (
      (h.0, a),
      IsFresh-same (x ∷ (seen ++ xs)) (seen ++ x ∷ xs) ys
          (λ y. ground (arith, contains-append y seen (x ∷ xs), contains-append y seen xs)) b,
    )
