-- ===== src/Cognitive/Exec.antt =====
-- Code that changes a state and may fail, and the rules by which its proofs follow its shape.
use darius.Base.{◌≡◌, refl, subst, Bool, true, false, if◌then◌else◌}
use darius.Cognitive.Types.{CognitiveError, Result, ok, err, panic}

abbrev pub Exec {ℓ} : Type ℓ → Type ℓ → Type ℓ
Exec S A = S → Result A × S

module _ {ℓ} {S A : Type ℓ} where
  unfoldable pub pure : A → Exec S A
  pure a s = (ok a, s)

  unfoldable pub raise : CognitiveError → Exec S A
  raise e s = (err e, s)

  -- A computation without state: `?` on its result.
  unfoldable pub lift : Result A → Exec S A
  lift r s = (r, s)

  unfoldable pub gets : (S → A) → Exec S A
  gets f s = (ok (f s), s)

module _ {ℓ} {S A B : Type ℓ} where
  abbrev pub continue : Result A × S → (A → Exec S B) → Result B × S
  continue (ok a, s) f = f a s
  continue (err e, s) f = (err e, s)
  continue (panic, s) f = (panic, s)

  infixl 5 ◌>>=◌
  unfoldable pub ◌>>=◌ : Exec S A → (A → Exec S B) → Exec S B
  ◌>>=◌ m f s = continue (m s) f

  infixl 5 ◌>>◌
  abbrev pub ◌>>◌ : Exec S A → Exec S B → Exec S B
  m >> k = m >>= λ _. k

-- `Q` holds of the value and the state of a success, and `E` of the state of an error or a panic.
abbrev pub Post {ℓ} : {S A : Type ℓ} → (A → S → Type ℓ) → (S → Type ℓ) → Result A × S → Type ℓ
Post Q E (ok a, s) = Q a s
Post Q E (err e, s) = E s
Post Q E (panic, s) = E s

pub record Triple {ℓ} {S A : Type ℓ} (P : S → Type ℓ) (m : Exec S A) (Q : A → S → Type ℓ)
    (E : S → Type ℓ) : Type ℓ where
  pub at : (s : S) → P s → Post Q E (m s)

module _ {ℓ} {S A : Type ℓ} {P : S → Type ℓ} {Q : A → S → Type ℓ} {E : S → Type ℓ} where
  pub Triple-pure : (a : A) → ((s : S) → P s → Q a s) → Triple P (pure a) Q E
  unfolding pure
  Triple-pure a h = record { at = h }

  pub Triple-raise : (e : CognitiveError) → ((s : S) → P s → E s) → Triple P (raise e) Q E
  unfolding raise
  Triple-raise e h = record { at = h }

  pub Triple-gets : (f : S → A) → ((s : S) → P s → Q (f s) s) → Triple P (gets f) Q E
  unfolding gets
  Triple-gets f h = record { at = h }

  pub Triple-lift :
      (r : Result A)
      → ((a : A) → r ≡ ok a → (s : S) → P s → Q a s)
      → ((s : S) → P s → E s)
      → Triple P (lift r) Q E
  unfolding lift
  Triple-lift (ok a) h k = record { at = h a refl }
  Triple-lift (err e) h k = record { at = k }
  Triple-lift panic h k = record { at = k }

  pub Triple-if :
      (b : Bool) (m n : Exec S A)
      → (b ≡ true → Triple P m Q E)
      → (b ≡ false → Triple P n Q E)
      → Triple P (if b then m else n) Q E
  Triple-if true m n hm hn = hm refl
  Triple-if false m n hm hn = hn refl

  pub Triple-weaken :
      {P' : S → Type ℓ} (m : Exec S A) → ((s : S) → P s → P' s) → Triple P' m Q E → Triple P m Q E
  Triple-weaken m h k = record { at = λ s p. k.at s (h s p) }

module _ {ℓ} {S A : Type ℓ} where
  Post-mono :
      (E : S → Type ℓ) (Q Q' : A → S → Type ℓ) (r : Result A × S)
      → ((a : A) (s : S) → Q a s → Q' a s)
      → Post Q E r
      → Post Q' E r
  Post-mono E Q Q' (ok a, s) k p = k a s p
  Post-mono E Q Q' (err e, s) k p = p
  Post-mono E Q Q' (panic, s) k p = p

  post_ok :
      (E : S → Type ℓ) (Q : A → S → Type ℓ) (r : Result A × S) (a : A)
      → r.0 ≡ ok a
      → Post Q E r
      → Q a r.1
  post_ok E Q (ok b, s) a e p = let e' : b ≡ a = cc e in subst (λ c. Q c s) e' p
  post_ok E Q (err x, s) a e p = cc e
  post_ok E Q (panic, s) a e p = cc e

module _ {ℓ} {S A : Type ℓ} {P : S → Type ℓ} {E : S → Type ℓ} where
  pub Triple-post :
      (Q : A → S → Type ℓ) {Q' : A → S → Type ℓ} {m : Exec S A}
      → ((a : A) (s : S) → Q a s → Q' a s)
      → Triple P m Q E
      → Triple P m Q' E
  Triple-post Q {Q'} {m} k t = record { at = λ s p. Post-mono E Q Q' (m s) k (t.at s p) }

  -- What a success promises.
  pub Triple-ok :
      {Q : A → S → Type ℓ} {m : Exec S A}
      → Triple P m Q E
      → (s : S) (a : A) → P s
      → (m s).0 ≡ ok a
      → Q a (m s).1
  Triple-ok {Q} {m} t s a p e = post_ok E Q (m s) a e (t.at s p)

module _ {ℓ} {S A B : Type ℓ} {R : B → S → Type ℓ} {E : S → Type ℓ} where
  bind-Post :
      (Q : A → S → Type ℓ) (f : A → Exec S B)
      → ((a : A) → Triple (Q a) (f a) R E)
      → (r : Result A × S) → Post Q E r
      → Post R E (continue r f)
  bind-Post Q f k (ok a, s) p = (k a).at s p
  bind-Post Q f k (err e, s) p = p
  bind-Post Q f k (panic, s) p = p

  pub Triple-bind :
      {P : S → Type ℓ} (Q : A → S → Type ℓ) (m : Exec S A) (f : A → Exec S B)
      → Triple P m Q E
      → ((a : A) → Triple (Q a) (f a) R E)
      → Triple P (m >>= f) R E
  unfolding ◌>>=◌
  Triple-bind Q m f hm hf = record { at = λ s p. bind-Post Q f hf (m s) (hm.at s p) }

-- A predicate that holds however the action ends.
pub Post-same :
    {S : Type 0} {A : Type 0} (P : S → Type 0) (r : Result A × S) → Post (λ _. P) P r → P r.1
Post-same P (ok a, s) p = p
Post-same P (err e, s) p = p
Post-same P (panic, s) p = p
