-- ===== src/Core/Commands/Parsing.antt =====
-- What the parser of invocations accepts, and the dash in place of the slash.
use darius.Base.{
  ◌≡◌, refl, sym, subst, String, Bool, true, false, not, ◌&&◌, Option, none, some, List, [], ◌∷◌,
  ◌⊎◌, inl, inr, str_eq, is_blank, if◌then◌else◌, Bool-cases, find, trim, trim_start, trim_end,
  split_space, arith, eq_iff,
}
use Prim.Native.String.{String as Text}
use darius.Core.Commands.{
  CommandInvocation, CommandSpec, is_mode, commands, Parsed, invocation, mode_args, invoke,
  found_or_unknown, dash_alias_to_slash, parse_invocation,
}

find-passes {ℓ} :
    {A : Type ℓ} (test : A → Bool) (xs : List A) (x : A) → find test xs ≡ some x → test x ≡ true
find-passes test [] x e = cc e
find-passes test (y ∷ xs) x e = elim (Bool-cases (test y)) [
  | inl q ↦ let p : y ≡ x = ground (arith, q, e) in subst (λ z. test z ≡ true) p q
  | inr q ↦ find-passes test xs x (ground (arith, q, e))
]

-- What a command's line in the registry allows.
abbrev pub Allows : CommandSpec → CommandInvocation → Type 0
Allows spec inv =
    (find (λ (item : CommandSpec). str_eq item.name inv.name) commands ≡ some spec)
    × (inv.id ≡ spec.id)
    × ((spec.accepts_args ≡ true) ⊎ (is_blank inv.args ≡ true))
    × ((is_mode inv.id ≡ false) ⊎ (mode_args inv.args ≡ true))

either_off : (a b : Bool) → (a && not b) ≡ false → (a ≡ false) ⊎ (b ≡ true)
either_off false b h = inl refl
either_off true true h = inr refl
either_off true false h = cc h

either_on : (a b : Bool) → (not a && not b) ≡ false → (a ≡ true) ⊎ (b ≡ true)
either_on true b h = inl refl
either_on false true h = inr refl
either_on false false h = cc h

-- Of two guards, both passed.
guards :
    (a b : Bool) (x y z : Parsed) (inv : CommandInvocation)
    → (if a then x else if b then y else z) ≡ invocation inv
    → (x ≡ invocation inv → ⊥)
    → (y ≡ invocation inv → ⊥)
    → (a ≡ false) × (b ≡ false) × (z ≡ invocation inv)
guards true b x y z inv e f g = absurd (f e)
guards false true x y z inv e f g = absurd (g e)
guards false false x y z inv e f g = (refl, refl, e)

abbrev invoked : CommandSpec → String → CommandInvocation
invoked spec args = record { id = spec.id; name = spec.name; args = args }

module _ (spec : CommandSpec) (args : String) (inv : CommandInvocation) where
  invoke-guards :
      invoke spec args ≡ invocation inv
      → ((not spec.accepts_args && not (is_blank args)) ≡ false)
        × ((is_mode spec.id && not (mode_args args)) ≡ false)
        × (invocation (invoked spec args) ≡ invocation inv)
  unfolding invoke
  invoke-guards e =
      guards (not spec.accepts_args && not (is_blank args))
        (is_mode spec.id && not (mode_args args)) _ _ _ inv e (λ q. cc q) (λ q. cc q)

  invoke-Allows :
      find (λ (item : CommandSpec). str_eq item.name spec.name) commands ≡ some spec
      → invoke spec args ≡ invocation inv
      → Allows spec inv
  invoke-Allows listed e =
      let g = invoke-guards e in
      let q : invoked spec args ≡ inv = cc (g.2) in
      subst (Allows spec) q (
        listed,
        refl,
        either_on spec.accepts_args (is_blank args) g.0,
        either_off (is_mode spec.id) (mode_args args) g.1,
      )

found-Allows :
    (name args : String) (o : Option CommandSpec) (inv : CommandInvocation)
    → find (λ (item : CommandSpec). str_eq item.name name) commands ≡ o
    → found_or_unknown name args o ≡ invocation inv
    → (spec : CommandSpec) × Allows spec inv
unfolding found_or_unknown
found-Allows name args none inv listed e = cc e
found-Allows name args (some spec) inv listed e =
    let named : spec.name ≡ name =
      (eq_iff spec.name name).0
        (find-passes (λ (item : CommandSpec). str_eq item.name name) commands spec listed) in
    (
      spec,
      invoke-Allows spec args inv
          (subst (λ n. find (λ (item : CommandSpec). str_eq item.name n) commands ≡ some spec)
            (sym named) listed)
          e,
    )

-- Whatever the input, an invocation that the parser gives is of a command of the registry, by its
-- name and its id; it has arguments only where the command accepts some, and those of `/mode` are
-- none, `auto` or `plan`.
pub parse_invocation-Allows :
    (input : String) (inv : CommandInvocation)
    → parse_invocation input ≡ invocation inv
    → (spec : CommandSpec) × Allows spec inv
unfolding parse_invocation
parse_invocation-Allows input inv e =
    let parts = split_space (dash_alias_to_slash (trim input)) in
    found-Allows parts.0 (trim parts.1) _ inv refl e

-- A dash in front is read as a slash, whatever follows it.
pub parse_invocation-dash :
    (rest : String) → parse_invocation (Text.◌∷◌ "-" rest) ≡ parse_invocation (Text.◌∷◌ "/" rest)
unfolding parse_invocation dash_alias_to_slash trim trim_start trim_end split_space
parse_invocation-dash rest = refl
