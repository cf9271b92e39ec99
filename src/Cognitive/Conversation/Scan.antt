-- ===== src/Cognitive/Conversation/Scan.antt =====
-- What one step of `validate`'s loop accepts, and what its map and its set then hold.
use darius.Base.{
  ℕ, suc, ◌<◌, ◌≡◌, refl, String, true, false, ◌||◌, List, [], ◌∷◌, ◌++◌, All, arith, eq_refl,
  eq_iff, contains, is_blank,
}
use darius.Tools.{ToolCall, lookup, is_some}
use darius.Cognitive.Types.{ok}
use darius.Cognitive.Conversation.{register_calls, register_result, called_before, resolve}
use darius.Cognitive.Conversation.Ids.{ids, IsFresh}

abbrev pub keys : List (String × ℕ) → List String
keys [] = []
keys ((id, idx) ∷ calls) = id ∷ keys calls

pub lookup-contains :
    (id : String) (calls : List (String × ℕ)) → is_some (lookup id calls) ≡ contains id (keys calls)
lookup-contains id [] = refl
lookup-contains id ((j, idx) ∷ calls) = ground (arith, lookup-contains id calls)

abbrev pub IsBelow : ℕ → List (String × ℕ) → Type 0
IsBelow n [] = Unit
IsBelow n ((id, idx) ∷ calls) = (idx < n) × IsBelow n calls

pub called_before-lookup :
    (n : ℕ) (id : String) (calls : List (String × ℕ))
    → IsBelow n calls
    → called_before n (lookup id calls) ≡ contains id (keys calls)
called_before-lookup n id [] b = refl
called_before-lookup n id ((j, idx) ∷ calls) b = ground (arith, called_before-lookup n id calls b.1)

abbrev pub AreNamed : List String → Type 0
AreNamed = All (λ id. is_blank id ≡ false)

pub AreNamed-append : (xs ys : List String) → AreNamed xs → AreNamed ys → AreNamed (xs ++ ys)
AreNamed-append [] ys a b = b
AreNamed-append (x ∷ xs) ys a b = (a.0, AreNamed-append xs ys a.1 b)

pub AreNamed-split : (xs ys : List String) → AreNamed (xs ++ ys) → AreNamed xs × AreNamed ys
AreNamed-split [] ys h = (tt, h)
AreNamed-split (x ∷ xs) ys h = let (a, b) = AreNamed-split xs ys h.1 in ((h.0, a), b)

pub AreNamed-contains :
    (x : String) (xs : List String) → AreNamed xs → contains x xs ≡ true → is_blank x ≡ false
AreNamed-contains x [] named m = cc
AreNamed-contains x (y ∷ xs) named m = ground (arith, eq_iff y x, AreNamed-contains x xs named.1)

pub IsBelow-suc : (n : ℕ) (calls : List (String × ℕ)) → IsBelow n calls → IsBelow (suc n) calls
IsBelow-suc n [] b = tt
IsBelow-suc n ((id, idx) ∷ calls) b = (omega arith, IsBelow-suc n calls b.1)

module _ {V : Type 0} where
  -- What the map holds once the calls of a message are in it.
  abbrev pub record_calls : ℕ → List (ToolCall V) → List (String × ℕ) → List (String × ℕ)
  record_calls idx [] calls = calls
  record_calls idx (call ∷ tool_calls) calls = record_calls idx tool_calls ((call.id, idx) ∷ calls)

  pub contains-record_calls :
      (x : String) (idx : ℕ) (tool_calls : List (ToolCall V)) (calls : List (String × ℕ))
      → contains x (keys (record_calls idx tool_calls calls))
        ≡ (contains x (keys calls) || contains x (ids tool_calls))
  contains-record_calls x idx [] calls = ground arith
  contains-record_calls x idx (call ∷ tool_calls) calls =
      ground (arith, contains-record_calls x idx tool_calls ((call.id, idx) ∷ calls))

  pub record_calls-IsBelow :
      (idx : ℕ) (tool_calls : List (ToolCall V)) (calls : List (String × ℕ))
      → IsBelow (suc idx) calls
      → IsBelow (suc idx) (record_calls idx tool_calls calls)
  record_calls-IsBelow idx [] calls b = b
  record_calls-IsBelow idx (call ∷ tool_calls) calls b =
      record_calls-IsBelow idx tool_calls ((call.id, idx) ∷ calls) (omega arith, b)

  pub register_sound :
      (idx : ℕ) (tool_calls : List (ToolCall V)) (calls calls' : List (String × ℕ))
      → register_calls idx tool_calls calls ≡ ok calls'
      → AreNamed (ids tool_calls)
        × IsFresh (keys calls) (ids tool_calls)
        × (record_calls idx tool_calls calls ≡ calls')
  unfolding register_calls
  register_sound idx [] calls calls' e = (tt, tt, ground arith)
  register_sound idx (call ∷ tool_calls) calls calls' e = ground (
    arith,
    lookup-contains call.id calls,
    register_sound idx tool_calls ((call.id, idx) ∷ calls) calls',
  )

  pub register_complete :
      (idx : ℕ) (tool_calls : List (ToolCall V)) (calls : List (String × ℕ))
      → AreNamed (ids tool_calls)
      → IsFresh (keys calls) (ids tool_calls)
      → register_calls idx tool_calls calls ≡ ok (record_calls idx tool_calls calls)
  unfolding register_calls
  register_complete idx [] calls named fresh = refl
  register_complete idx (call ∷ tool_calls) calls named fresh = ground (
    arith,
    lookup-contains call.id calls,
    register_complete idx tool_calls ((call.id, idx) ∷ calls) named.1 fresh.1,
  )

pub register_result_sound :
    (idx : ℕ) (id : String) (calls : List (String × ℕ)) (results results' : List String)
    → IsBelow idx calls
    → register_result idx id calls results ≡ ok results'
    → (contains id results ≡ false) × (contains id (keys calls) ≡ true) × (results' ≡ id ∷ results)
unfolding register_result
register_result_sound idx id calls results results' below e =
    ground (arith, called_before-lookup idx id calls below)

pub register_result_complete :
    (idx : ℕ) (id : String) (calls : List (String × ℕ)) (results : List String)
    → IsBelow idx calls
    → is_blank id ≡ false
    → contains id results ≡ false
    → contains id (keys calls) ≡ true
    → register_result idx id calls results ≡ ok (id ∷ results)
unfolding register_result
register_result_complete idx id calls results below named fresh called =
    ground (arith, called_before-lookup idx id calls below)

pub resolve_sound :
    (calls : List (String × ℕ)) (results : List String) (x : String)
    → resolve calls results ≡ ok tt
    → contains x (keys calls) ≡ true
    → contains x results ≡ true
unfolding resolve
resolve_sound [] results x e h = cc
resolve_sound ((id, idx) ∷ calls) results x e h =
    ground (arith, resolve_sound calls results x, eq_iff id x)

pub resolve_complete :
    (calls : List (String × ℕ)) (results : List String)
    → ((x : String) → contains x (keys calls) ≡ true → contains x results ≡ true)
    → resolve calls results ≡ ok tt
unfolding resolve
resolve_complete [] results h = refl
resolve_complete ((id, idx) ∷ calls) results h =
    ground
      (arith, h id, eq_refl id, resolve_complete calls results (λ x m. h x (ground (arith, m))))
