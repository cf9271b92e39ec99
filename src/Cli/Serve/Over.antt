-- ===== src/Cli/Serve/Over.antt =====
-- Lists of the actor's events in which a turn is open, or over.
use darius.Base.{◌≡◌, ◌≢◌, refl, ap, ◌∙◌, ℕ, false, List, [], ◌∷◌, ◌++◌, All, append_assoc}
use darius.Cognitive.Types.{UiEvent}
use darius.Tui.Events.{RuntimeEvent}
use darius.Cli.Actor.{is_done}

-- No event of the turn is its end.
abbrev pub IsOpen : ℕ → List RuntimeEvent → Type 0
IsOpen t events = All (λ (e : RuntimeEvent). e.turn_id ≡ t → is_done e.event ≡ false) events

-- One event of the turn is its end, and no event of it comes behind that.
pub record IsOver (t : ℕ) (events : List RuntimeEvent) : Type 0 where
  pub front : List RuntimeEvent
  pub back : List RuntimeEvent
  pub splits : events ≡ front ++ record { turn_id = t; event = UiEvent.done } ∷ back
  pub opens : IsOpen t front
  pub passed : All (λ (e : RuntimeEvent). e.turn_id ≢ t) back

pub All-snoc :
    (P : RuntimeEvent → Type 0) (es : List RuntimeEvent) (e : RuntimeEvent)
    → All P es
    → P e
    → All P (es ++ e ∷ [])
All-snoc P [] e a p = (p, tt)
All-snoc P (x ∷ es) e (a, bs) p = (a, All-snoc P es e bs p)

pub All-weak :
    (P Q : RuntimeEvent → Type 0) (es : List RuntimeEvent)
    → ((e : RuntimeEvent) → P e → Q e)
    → All P es
    → All Q es
All-weak P Q [] f a = tt
All-weak P Q (e ∷ es) f (a, bs) = (f e a, All-weak P Q es f bs)

pub IsOver-snoc :
    (t : ℕ) (es : List RuntimeEvent) (e : RuntimeEvent)
    → e.turn_id ≢ t
    → IsOver t es
    → IsOver t (es ++ e ∷ [])
IsOver-snoc t es e n o = record {
  front = o.front;
  back = o.back ++ e ∷ [];
  splits = ap (λ (x : List RuntimeEvent). x ++ e ∷ []) o.splits ∙ append_assoc o.front _ (e ∷ []);
  opens = o.opens;
  passed = All-snoc (λ e. e.turn_id ≢ t) o.back e o.passed n;
}

pub IsOver-now :
    (t : ℕ) (es : List RuntimeEvent)
    → IsOpen t es
    → IsOver t (es ++ record { turn_id = t; event = UiEvent.done } ∷ [])
IsOver-now t es o = record { front = es; back = []; splits = refl; opens = o; passed = tt }
