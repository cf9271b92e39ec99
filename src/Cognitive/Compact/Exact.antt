-- ===== src/Cognitive/Compact/Exact.antt =====
-- What compaction promises: it fits the budget or says by how much it fails, and it touches nothing
-- but the text of tool results.
use darius.Base.{
  ℕ, suc, ◌≤◌, ◌<◌, ◌≡◌, refl, sym, ap, ◌∙◌, String, len, Bool, true, false, ◌⊎◌, inl, inr, List,
  [], ◌∷◌, ◌++◌, append_assoc, append-nil, arith, leb, leb→le, leb→lt, eq_iff, if◌then◌else◌, subst,
}
use darius.Cognitive.Types.{
  Message, system, user, assistant, tool, context_budget_exceeded, Result, ok, err,
}
use darius.Cognitive.Conversation.Ids.{call_ids, result_ids, IsCausal}
use darius.Cognitive.Conversation.Spec.{IsValid}
use darius.Cognitive.Compact.{shrink_result, compact_from, compact_to}
use darius.Cognitive.Compact.Shrink.{shrink_result_ends}

module _ {V : Type 0} where
  -- A transcript with the text of every tool result taken out.
  abbrev pub emptied : List (Message V) → List (Message V)
  emptied [] = []
  emptied (tool id name content ∷ msgs) = tool id name "" ∷ emptied msgs
  emptied (system content ∷ msgs) = system content ∷ emptied msgs
  emptied (user content ∷ msgs) = user content ∷ emptied msgs
  emptied (assistant content tool_calls ∷ msgs) = assistant content tool_calls ∷ emptied msgs

  emptied-append : (xs ys : List (Message V)) → emptied (xs ++ ys) ≡ emptied xs ++ emptied ys
  emptied-append [] ys = refl
  emptied-append (tool id name content ∷ xs) ys = rw (emptied-append xs ys)
  emptied-append (system content ∷ xs) ys = rw (emptied-append xs ys)
  emptied-append (user content ∷ xs) ys = rw (emptied-append xs ys)
  emptied-append (assistant content tool_calls ∷ xs) ys = rw (emptied-append xs ys)

  emptied-within :
      (past xs ys zs : List (Message V))
      → emptied xs ≡ emptied ys
      → emptied (past ++ (xs ++ zs)) ≡ emptied (past ++ (ys ++ zs))
  emptied-within past xs ys zs e =
      simp emptied-append (ap (λ (l : List (Message V)). emptied past ++ (l ++ emptied zs)) e)

  module _ (size : List (Message V) → ℕ) (budget : ℕ) where
    -- The result fits; or it is the error that tells its size, and no tool result has text left.
    record Compacts (past msgs : List (Message V)) (r : List (Message V) × Result (Unit {0}))
        : Type 0 where
      same : emptied r.0 ≡ emptied (past ++ msgs)
      outcome :
          ((r.1 ≡ ok tt) × (size r.0 ≤ budget))
          ⊎ ((r.1 ≡ err (context_budget_exceeded (size r.0) budget))
              × (budget < size r.0)
              × (r.0 ≡ past ++ emptied msgs))

    Compacts-stop :
        (past msgs now : List (Message V))
        → emptied now ≡ emptied (past ++ msgs)
        → size now ≤ budget
        → Compacts past msgs (now, ok tt)
    Compacts-stop past msgs now same fits = record { same = same; outcome = inl (refl, fits) }

    -- A message that is passed, with its text taken out if it is a tool result, joins the past.
    Compacts-past :
        (past : List (Message V)) (m m' : Message V) (msgs : List (Message V))
        (r : List (Message V) × Result (Unit {0}))
        → m' ∷ [] ≡ emptied (m ∷ [])
        → emptied (m' ∷ []) ≡ emptied (m ∷ [])
        → Compacts (past ++ m' ∷ []) msgs r
        → Compacts past (m ∷ msgs) r
    Compacts-past past m m' msgs r plain same c = record {
      same =
          c.same
          ∙ ap emptied (append_assoc past (m' ∷ []) msgs)
          ∙ emptied-within past (m' ∷ []) (m ∷ []) msgs same;
      outcome = elim c.outcome [
        | inl fits ↦ inl fits
        | inr (e, over, all) ↦ inr (
          e,
          over,
          all
              ∙ append_assoc past (m' ∷ []) (emptied msgs)
              ∙ ap (λ (l : List (Message V)). past ++ (l ++ emptied msgs)) plain
              ∙ sym (ap (λ (l : List (Message V)). past ++ l) (emptied-append (m ∷ []) msgs)),
        )
      ];
    }

    Compacts-if :
        (past msgs : List (Message V)) (b : Bool) (x y : List (Message V) × Result (Unit {0}))
        → (b ≡ true → Compacts past msgs x)
        → (b ≡ false → Compacts past msgs y)
        → Compacts past msgs (if b then x else y)
    Compacts-if past msgs true x y f g = f refl
    Compacts-if past msgs false x y f g = g refl

    compact_from_lem :
        (past msgs : List (Message V)) → Compacts past msgs (compact_from size budget past msgs)
    unfolding compact_from
    compact_from_lem past [] =
        Compacts-if past [] (leb (size past) budget) _ _
          (λ h. Compacts-stop past [] past (rw append-nil) (leb→le _ _ h))
          (λ h. record { same = rw append-nil; outcome = inr (refl, leb→lt _ _ h, rw append-nil) })
    compact_from_lem past (tool id name content ∷ msgs) =
        let whole : String → ℕ = λ c. size (past ++ tool id name c ∷ msgs) in
        let found : Bool × String = shrink_result (suc (len content)) whole budget content in
        let ends = shrink_result_ends (suc (len content)) whole budget content (omega arith) in
        Compacts-if past (tool id name content ∷ msgs) found.0 _ _
          (λ h.
            Compacts-stop past _ _
              (emptied-within past (tool id name found.1 ∷ []) (tool id name content ∷ []) msgs
                refl)
              (ground (arith, ends, h)))
          (λ h.
            Compacts-past past (tool id name content) (tool id name found.1) msgs _
              (ground (arith, ends, h, eq_iff found.1 "")) refl
              (compact_from_lem (past ++ tool id name found.1 ∷ []) msgs))
    compact_from_lem past (system content ∷ msgs) =
        Compacts-if past (system content ∷ msgs) (leb (size (past ++ system content ∷ msgs)) budget)
          _ _ (λ h. Compacts-stop past _ _ refl (leb→le _ _ h))
          (λ h.
            Compacts-past past (system content) (system content) msgs _ refl refl
              (compact_from_lem (past ++ system content ∷ []) msgs))
    compact_from_lem past (user content ∷ msgs) =
        Compacts-if past (user content ∷ msgs) (leb (size (past ++ user content ∷ msgs)) budget) _ _
          (λ h. Compacts-stop past _ _ refl (leb→le _ _ h))
          (λ h.
            Compacts-past past (user content) (user content) msgs _ refl refl
              (compact_from_lem (past ++ user content ∷ []) msgs))
    compact_from_lem past (assistant content tool_calls ∷ msgs) =
        Compacts-if past (assistant content tool_calls ∷ msgs)
          (leb (size (past ++ assistant content tool_calls ∷ msgs)) budget) _ _
          (λ h. Compacts-stop past _ _ refl (leb→le _ _ h))
          (λ h.
            Compacts-past past (assistant content tool_calls) (assistant content tool_calls) msgs _
              refl refl (compact_from_lem (past ++ assistant content tool_calls ∷ []) msgs))

  call_ids-emptied : (msgs : List (Message V)) → call_ids (emptied msgs) ≡ call_ids msgs
  call_ids-emptied [] = refl
  call_ids-emptied (tool id name content ∷ msgs) = call_ids-emptied msgs
  call_ids-emptied (system content ∷ msgs) = call_ids-emptied msgs
  call_ids-emptied (user content ∷ msgs) = call_ids-emptied msgs
  call_ids-emptied (assistant content tool_calls ∷ msgs) = rw (call_ids-emptied msgs)

  result_ids-emptied : (msgs : List (Message V)) → result_ids (emptied msgs) ≡ result_ids msgs
  result_ids-emptied [] = refl
  result_ids-emptied (tool id name content ∷ msgs) = rw (result_ids-emptied msgs)
  result_ids-emptied (system content ∷ msgs) = result_ids-emptied msgs
  result_ids-emptied (user content ∷ msgs) = result_ids-emptied msgs
  result_ids-emptied (assistant content tool_calls ∷ msgs) = result_ids-emptied msgs

  IsCausal-emptied :
      (seen : List String) (msgs : List (Message V))
      → IsCausal seen (emptied msgs) ≡ IsCausal seen msgs
  IsCausal-emptied seen [] = refl
  IsCausal-emptied seen (tool id name content ∷ msgs) = rw (IsCausal-emptied seen msgs)
  IsCausal-emptied seen (system content ∷ msgs) = IsCausal-emptied seen msgs
  IsCausal-emptied seen (user content ∷ msgs) = IsCausal-emptied seen msgs
  IsCausal-emptied seen (assistant content tool_calls ∷ msgs) = IsCausal-emptied (seen ++ _) msgs

  -- Validity is not about the text of tool results.
  emptied-IsValid : (xs ys : List (Message V)) → emptied xs ≡ emptied ys → IsValid ys → IsValid xs
  emptied-IsValid xs ys e v =
      let calls : call_ids xs ≡ call_ids ys =
        sym (call_ids-emptied xs) ∙ ap call_ids e ∙ call_ids-emptied ys in
      let results : result_ids xs ≡ result_ids ys =
        sym (result_ids-emptied xs) ∙ ap result_ids e ∙ result_ids-emptied ys in
      record {
        named = rw calls v.named;
        fresh_calls = rw calls v.fresh_calls;
        fresh_results = rw results v.fresh_results;
        causal =
            subst (λ (t : Type 0). t) (IsCausal-emptied [] xs)
              (rw e (subst (λ (t : Type 0). t) (sym (IsCausal-emptied [] ys)) v.causal));
        answered = rw (calls, results) v.answered;
      }

  -- Compaction ends with a transcript within the budget; or with the error that gives its size, which
  -- is above the budget though no tool result has any text left. Either way it changes nothing
  -- but the text of tool results, and it keeps a valid transcript valid.
  pub compact_to_exact :
      (size : List (Message V) → ℕ) (budget : ℕ) (msgs : List (Message V))
      → let r = compact_to size budget msgs in
        (emptied r.0 ≡ emptied msgs)
        × (IsValid msgs → IsValid r.0)
        × (((r.1 ≡ ok tt) × (size r.0 ≤ budget))
            ⊎ ((r.1 ≡ err (context_budget_exceeded (size r.0) budget))
                × (budget < size r.0)
                × (r.0 ≡ emptied msgs)))
  unfolding compact_to
  compact_to_exact size budget msgs =
      let c = compact_from_lem size budget [] msgs in
      (c.same, emptied-IsValid (compact_from size budget [] msgs).0 msgs c.same, c.outcome)
