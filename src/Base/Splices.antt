-- ===== src/Base/Splices.antt =====
-- What the insertions into a text and the removals from it give: they succeed in range, and they act
-- behind a text that stands before the place.
use Prim.Native.Nat.{ℕ, zero, suc, ◌+◌, ◌≤◌, ◌<◌}
use Prim.Native.Char.{Char}
use Prim.Native.String.{String}
use mathlib.Core.Path.{◌≡◌, subst, refl, sym, ap, ◌∙◌}
use mathlib.Core.Option.{Option, none, some}
use native.Mathlib.Omega.{arith}
use darius.Base.Optional.{◌>>=◌}
use darius.Base.Chars.{char_count, insert_char, remove_char, insert_chars}

-- Results that keep their equation.
abbrev pub Gives {ℓ} : {A : Type ℓ} → Option A → (A → Type ℓ) → Type ℓ
Gives {A = A} o P = (a : A) × (o ≡ some a) × P a

pub Gives-bind {ℓ} :
    {A B : Type ℓ} (P : A → Type ℓ) (Q : B → Type ℓ) (o : Option A) (f : A → Option B)
    → Gives o P
    → ((a : A) → P a → Gives (f a) Q)
    → Gives (o >>= f) Q
Gives-bind P Q none f (a, e, p) k = cc e
Gives-bind P Q (some b) f (a, e, p) k = let q : a ≡ b = cc e in k b (subst P q p)

pub insert_char_total :
    (n : ℕ) (c : Char) (s : String)
    → n ≤ char_count s
    → Gives (insert_char n c s) (λ t. char_count t ≡ suc (char_count s))
unfolding insert_char char_count
insert_char_total zero c s h = (String.◌∷◌ c s, refl, refl)
insert_char_total (suc n) c String.[] h = absurd (omega arith)
insert_char_total (suc n) c (String.◌∷◌ d s) h =
    Gives-bind _ _ (insert_char n c s) _ (insert_char_total n c s (omega arith))
      (λ t e. (String.◌∷◌ d t, refl, ap suc e))

pub remove_char_total :
    (n : ℕ) (s : String)
    → n < char_count s
    → Gives (remove_char n s) (λ t. suc (char_count t) ≡ char_count s)
unfolding remove_char char_count
remove_char_total n String.[] h = absurd (omega arith)
remove_char_total zero (String.◌∷◌ d s) h = (s, refl, refl)
remove_char_total (suc n) (String.◌∷◌ d s) h =
    Gives-bind _ _ (remove_char n s) _ (remove_char_total n s (omega arith))
      (λ t e. (String.◌∷◌ d t, refl, ap suc e))

pub insert_chars_total :
    (n : ℕ) (text s : String)
    → n ≤ char_count s
    → Gives (insert_chars n text s) (λ t. char_count t ≡ char_count s + char_count text)
unfolding insert_chars char_count
insert_chars_total n String.[] s h = (s, refl, omega arith)
insert_chars_total n (String.◌∷◌ c text) s h =
    Gives-bind _ _ (insert_char n c s) _ (insert_char_total n c s h) (λ t e.
      let r = insert_chars_total (suc n) text t (omega arith) in (r.0, r.1, omega (arith, r.2, e)))

-- A text that was read backwards, put before another one.
unfoldable pub rewind : String → String → String
rewind String.[] s = s
rewind (String.◌∷◌ c before) s = rewind before (String.◌∷◌ c s)

abbrev pub rewound : String → Option String → Option String
rewound before o = o >>= λ t. some (rewind before t)

some_bind {ℓ} : {A : Type ℓ} (o : Option A) → (o >>= λ t. some t) ≡ o
some_bind none = refl
some_bind (some a) = refl

-- Two steps behind a character that stands first.
step_bind :
    (before : String) (d : Char) (o : Option String)
    → rewound before (o >>= λ t. some (String.◌∷◌ d t)) ≡ rewound (String.◌∷◌ d before) o
unfolding rewind
step_bind before d none = refl
step_bind before d (some t) = refl

-- An edit of the characters behind a text that was read is the edit at a place that much further.
pub insert_char-rewind :
    (before : String) (k n : ℕ) (c : Char) (s : String)
    → n ≡ char_count before + k
    → insert_char n c (rewind before s) ≡ rewound before (insert_char k c s)
unfolding rewind char_count insert_char
insert_char-rewind String.[] k n c s e =
    let e' : n ≡ k = omega (arith, e) in rw e' (sym (some_bind (insert_char k c s)))
insert_char-rewind (String.◌∷◌ d before) k n c s e =
    insert_char-rewind before (suc k) n c (String.◌∷◌ d s) (omega (arith, e))
    ∙ step_bind before d (insert_char k c s)

pub remove_char-rewind :
    (before : String) (k n : ℕ) (s : String)
    → n ≡ char_count before + k
    → remove_char n (rewind before s) ≡ rewound before (remove_char k s)
unfolding rewind char_count remove_char
remove_char-rewind String.[] k n s e =
    let e' : n ≡ k = omega (arith, e) in rw e' (sym (some_bind (remove_char k s)))
remove_char-rewind (String.◌∷◌ d before) k n s e =
    remove_char-rewind before (suc k) n (String.◌∷◌ d s) (omega (arith, e))
    ∙ step_bind before d (remove_char k s)

-- A text read on, character by character, behind one that was read backwards.
unfoldable pub read_on : String → String → String
read_on String.[] before = before
read_on (String.◌∷◌ c text) before = read_on text (String.◌∷◌ c before)

pub insert_chars-rewind :
    (before text s : String) (n : ℕ)
    → n ≡ char_count before
    → insert_chars n text (rewind before s) ≡ some (rewind (read_on text before) s)
unfolding rewind char_count insert_chars insert_char read_on
insert_chars-rewind before String.[] s n e = refl
insert_chars-rewind before (String.◌∷◌ c text) s n e =
    rw (insert_char-rewind before 0 n c s (omega (arith, e)))
      (insert_chars-rewind (String.◌∷◌ c before) text s (suc n) (omega (arith, e)))

pub char_count-rewind :
    (before s : String) → char_count (rewind before s) ≡ char_count before + char_count s
unfolding rewind char_count
char_count-rewind String.[] s = omega arith
char_count-rewind (String.◌∷◌ c before) s = omega (arith, char_count-rewind before (String.◌∷◌ c s))

pub char_count-read_on :
    (text before : String) → char_count (read_on text before) ≡ char_count before + char_count text
unfolding read_on char_count
char_count-read_on String.[] before = omega arith
char_count-read_on (String.◌∷◌ c text) before =
    omega (arith, char_count-read_on text (String.◌∷◌ c before))
