-- ===== src/Contract/Families.antt =====
-- The normal form of a recipe's tool families: no name twice.
use looping_core.Base.{
  String, Bool, true, false, ◌||◌, List, [], ◌∷◌, any, keep_if, str_eq, ◌≡◌, refl, ap, ◌∙◌, arith,
  Bool-cases, inl, inr,
}
use looping_core.Contract.Recipe.{RecipePolicy, unique_from, known_families}

abbrev is_seen : String → List String → Bool
is_seen x seen = any (str_eq x) seen

-- No element is among those seen before it.
abbrev pub IsFresh : List String → List String → Type 0
IsFresh seen [] = Unit
IsFresh seen (x ∷ xs) = (is_seen x seen ≡ false) × IsFresh (x ∷ seen) xs

unique_from-IsFresh : (seen xs : List String) → IsFresh seen (unique_from seen xs)
unfolding unique_from
unique_from-IsFresh seen [] = tt
unique_from-IsFresh seen (x ∷ xs) = elim (Bool-cases (is_seen x seen)) [
  | inl old ↦ rw (IsFresh, unique_from, old) (unique_from-IsFresh seen xs)
  | inr new ↦ rw (IsFresh, unique_from, new) (new, unique_from-IsFresh (x ∷ seen) xs)
]

unique_from_fresh : (seen xs : List String) → IsFresh seen xs → unique_from seen xs ≡ xs
unfolding unique_from
unique_from_fresh seen [] h = refl
unique_from_fresh seen (x ∷ xs) h =
    rw (unique_from, h.0) (ap (λ ys. x ∷ ys) (unique_from_fresh (x ∷ seen) xs h.1))

||-false : (a b : Bool) → a || b ≡ false → (a ≡ false) × (b ≡ false)
||-false false b h = (refl, h)
||-false true b h = absurd (cc)

-- With fewer seen, what was fresh still is.
weaken :
    (seen fewer xs : List String)
    → ((x : String) → is_seen x seen ≡ false → is_seen x fewer ≡ false)
    → IsFresh seen xs
    → IsFresh fewer xs
weaken seen fewer [] sub h = tt
weaken seen fewer (x ∷ xs) sub h = (
  sub x h.0,
  weaken (x ∷ seen) (x ∷ fewer) xs
      (λ y f. let parts = ||-false (str_eq y x) (is_seen y seen) f in rw parts.0 (sub y parts.1))
      h.1,
)

keep_if-IsFresh :
    (p : String → Bool) (seen xs : List String) → IsFresh seen xs → IsFresh seen (keep_if p xs)
keep_if-IsFresh p seen [] h = tt
keep_if-IsFresh p seen (x ∷ xs) h = elim (Bool-cases (p x)) [
  | inl yes_x ↦ rw yes_x (h.0, keep_if-IsFresh p (x ∷ seen) xs h.1)
  | inr no_x ↦
      rw no_x (keep_if-IsFresh p seen xs (weaken (x ∷ seen) seen xs (λ y f. ground arith) h.1))
]

pub keep_if_twice {ℓ} :
    {A : Type ℓ} (p : A → Bool) (xs : List A) → keep_if p (keep_if p xs) ≡ keep_if p xs
keep_if_twice p [] = refl
keep_if_twice p (x ∷ xs) = elim (Bool-cases (p x)) [
  | inl yes_x ↦ rw (yes_x, yes_x) (ap (λ ys. x ∷ ys) (keep_if_twice p xs))
  | inr no_x ↦ rw no_x (keep_if_twice p xs)
]

pub known_families_twice :
    (policy : RecipePolicy) (xs : List String)
    → known_families policy (known_families policy xs) ≡ known_families policy xs
unfolding known_families
known_families_twice policy xs =
    ap (keep_if policy.is_known) (
      unique_from_fresh [] (keep_if policy.is_known (unique_from [] xs))
        (keep_if-IsFresh policy.is_known [] (unique_from [] xs) (unique_from-IsFresh [] xs)))
    ∙ keep_if_twice policy.is_known (unique_from [] xs)
