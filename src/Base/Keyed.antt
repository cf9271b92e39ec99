-- ===== src/Base/Keyed.antt =====
-- Maps with an equality test on keys (`HashMap`), as association lists.
use Prim.Native.String.{String}
use Prim.Native.Nat.{suc, ◌+◌, ◌≤◌}
use mathlib.Core.Path.{refl, ap, ◌≡◌, sym, subst}
use mathlib.Core.Logic.{inl, inr}
use mathlib.Core.Bool.{Bool, true, false}
use mathlib.Core.Option.{Option, none, some}
use mathlib.Core.List.{List, [], ◌∷◌}
use native.Mathlib.Omega.{arith}
use text.Mathlib.TextEquality.{eq_iff}
use text.Mathlib.TextPositions.{eq_refl}
use darius.Base.Tests.{if◌then◌else◌, if_cases, Bool-cases, Option-cases}
use darius.Base.Lists.{All, length}
use darius.Base.Text.{str_eq}

pub record Key {ℓ} (K : Type ℓ) : Type ℓ where
  pub same : K → K → Bool
  pub same→≡ : (a b : K) → same a b ≡ true → a ≡ b
  pub same_refl : (a : K) → same a a ≡ true

instance abbrev pub string_key : Key String
string_key = record { same = str_eq; same→≡ = λ a b e. (eq_iff a b).0 e; same_refl = eq_refl }

abbrev pub Dict {ℓ κ} : Type ℓ → Type κ → Type (ℓ ⊔ κ)
Dict K A = List (K × A)

first_entry {κ} :
    {A : Type κ} (b : Bool) (w v : A) (rest : Option A)
    → b ≡ true
    → (if b then some w else rest) ≡ some v
    → w ≡ v
first_entry b w v rest q e = ground (arith, q, e)

later_entry {κ} :
    {A : Type κ} {o : Option A} (b : Bool) (w : A) (rest : Option A)
    → b ≡ false
    → (if b then some w else rest) ≡ o
    → rest ≡ o
later_entry b w rest q e = ground (arith, q, e)

module _ {ℓ κ} {K : Type ℓ} {A : Type κ} ⦃key : Key K⦄ where
  unfoldable pub get : K → Dict K A → Option A
  get k [] = none
  get k ((j, v) ∷ m) = if key.same j k then some v else get k m

  -- `HashMap::insert`
  unfoldable pub put : K → A → Dict K A → Dict K A
  put k v [] = (k, v) ∷ []
  put k v ((j, w) ∷ m) = let rest = put k v m in if key.same j k then (j, v) ∷ m else (j, w) ∷ rest

  -- `HashMap::remove`; an entry has one place.
  unfoldable pub remove : K → Dict K A → Dict K A
  remove k [] = []
  remove k ((j, v) ∷ m) = let rest = remove k m in if key.same j k then rest else (j, v) ∷ rest

  pub get-put : (k : K) (v : A) (m : Dict K A) → get k (put k v m) ≡ some v
  unfolding get put
  get-put k v [] = rw (key.same_refl k)
  get-put k v ((j, w) ∷ m) = elim (Bool-cases (key.same j k)) [
    | inl e ↦ rw (e, e)
    | inr e ↦ rw (e, e, get-put k v m)
  ]

  pub get-put_other :
      (k l : K) (v : A) (m : Dict K A) → key.same k l ≡ false → get l (put k v m) ≡ get l m
  unfolding get put
  get-put_other k l v [] n = rw n
  get-put_other k l v ((j, w) ∷ m) n = elim (Bool-cases (key.same j k)) [
    | inl e ↦ rw (e, subst (λ x. key.same x l ≡ false) (sym (key.same→≡ j k e)) n)
    | inr e ↦ rw (e, get-put_other k l v m n)
  ]

  -- Writing back what is there.
  pub put-get : (k : K) (v : A) (m : Dict K A) → get k m ≡ some v → put k v m ≡ m
  unfolding get put
  put-get k v [] e = cc e
  put-get k v ((j, w) ∷ m) e = elim (Bool-cases (key.same j k)) [
    | inl q ↦ rw (q, sym (first_entry (key.same j k) w v (get k m) q e))
    | inr q ↦ rw (q, put-get k v m (later_entry (key.same j k) w (get k m) q e))
  ]

  pub length-put : (k : K) (v : A) (m : Dict K A) → length (put k v m) ≤ length m + 1
  unfolding put
  length-put k v [] = omega arith
  length-put k v ((j, w) ∷ m) =
      if_cases (λ (r : Dict K A). length r ≤ length ((j, w) ∷ m) + 1) (key.same j k) _ _
        (λ _. omega arith) (λ _. omega (arith, length-put k v m))

  pub length-put_found :
      (k : K) (v w : A) (m : Dict K A) → get k m ≡ some w → length (put k v m) ≡ length m
  unfolding get put
  length-put_found k v w [] e = cc e
  length-put_found k v w ((j, x) ∷ m) e = elim (Bool-cases (key.same j k)) [
    | inl q ↦ rw q refl
    | inr q ↦ rw q (ap suc (length-put_found k v w m (later_entry (key.same j k) x (get k m) q e)))
  ]

  module _ {ι} (P : K → A → Type ι) where
    abbrev pub AllEntries : Dict K A → Type ι
    AllEntries m = All (λ (e : K × A). P e.0 e.1) m

    pub get-AllEntries : (k : K) (m : Dict K A) (v : A) → AllEntries m → get k m ≡ some v → P k v
    unfolding get
    get-AllEntries k [] v a e = cc e
    get-AllEntries k ((j, w) ∷ m) v a e = elim (Bool-cases (key.same j k)) [
      | inl q ↦
          subst (λ x. P x v) (key.same→≡ j k q)
            (subst (P j) (first_entry (key.same j k) w v (get k m) q e) a.0)
      | inr q ↦ get-AllEntries k m v a.1 (later_entry (key.same j k) w (get k m) q e)
    ]

    pub put-AllEntries :
        (k : K) (v : A) (m : Dict K A) → AllEntries m → P k v → AllEntries (put k v m)
    unfolding put
    put-AllEntries k v [] a p = (p, tt)
    put-AllEntries k v ((j, w) ∷ m) a p = elim (Bool-cases (key.same j k)) [
      | inl q ↦ rw q ((subst (λ x. P x v) (sym (key.same→≡ j k q)) p, a.1))
      | inr q ↦ rw q ((a.0, put-AllEntries k v m a.1 p))
    ]

-- `Result<A, E>`.
pub data Reply {ℓ} (E A : Type ℓ) : Type ℓ where
  ok : A → Reply E A
  err : E → Reply E A

module _ {ℓ κ} {K : Type ℓ} {V : Type κ} ⦃key : Key K⦄ {E A : Type κ} where
  -- `get_mut`, `ok_or_else`, and what `f` makes of the entry.
  unfoldable pub visit : E → K → (V → Reply E A × V) → Dict K V → Reply E A × Dict K V
  visit missing k f m = elim (get k m) [
    | none ↦ (err missing, m)
    | some v ↦ ((f v).0, put k (f v).1 m)
  ]

  pub visit-found :
      (missing : E) (k : K) (f : V → Reply E A × V) (m : Dict K V) (v : V)
      → get k m ≡ some v
      → visit missing k f m ≡ ((f v).0, put k (f v).1 m)
  unfolding visit
  visit-found missing k f m v e = rw (visit, e)

  pub visit-missing :
      (missing : E) (k : K) (f : V → Reply E A × V) (m : Dict K V)
      → get k m ≡ none
      → visit missing k f m ≡ (err missing, m)
  unfolding visit
  visit-missing missing k f m e = rw (visit, e)

  pub visit-AllEntries {ι} :
      (P : K → V → Type ι) (missing : E) (k : K) (f : V → Reply E A × V) (m : Dict K V)
      → ((v : V) → P k v → P k (f v).1)
      → AllEntries P m
      → AllEntries P (visit missing k f m).1
  visit-AllEntries P missing k f m keeps a = elim (Option-cases (get k m)) [
    | inl e ↦
        subst (λ (p : Reply E A × Dict K V). AllEntries P p.1) (sym (visit-missing missing k f m e))
          a
    | inr (v, e) ↦
        subst (λ (p : Reply E A × Dict K V). AllEntries P p.1) (sym (visit-found missing k f m v e))
          (put-AllEntries P k (f v).1 m a (keeps v (get-AllEntries P k m v a e)))
  ]
