-- ===== src/Base/Step.antt =====
-- Calls in sequence over a world, each of which may throw. A durable step of a Workflow, with its
-- retries, is one such call: it returns its body's value, or throws once the retries are spent.
use mathlib.Core.Path.{◌≡◌, refl, ap, ◌∙◌}
use looping_core.Base.Outcomes.{Outcome, returned, threw}

abbrev pub Step : Type 0 → Type 0 → Type 0 → Type 0
Step W E A = W → Outcome E A × W

module _ {W E : Type 0} where
  infixl 5 ◌>>=◌ ◌>>◌
  abbrev pub after : {A B : Type 0} → (A → Step W E B) → Outcome E A × W → Outcome E B × W
  after f (returned a, w) = f a w
  after f (threw e, w) = (threw e, w)

  abbrev pub ◌>>=◌ : {A B : Type 0} → Step W E A → (A → Step W E B) → Step W E B
  ◌>>=◌ m f w = after f (m w)

  abbrev pub ◌>>◌ : {A B : Type 0} → Step W E A → Step W E B → Step W E B
  m >> k = m >>= λ _. k

  abbrev pub pure : {A : Type 0} → A → Step W E A
  pure a w = (returned a, w)

  abbrev pub throw : {A : Type 0} → E → Step W E A
  throw e w = (threw e, w)

  -- `try { m } catch (e) { h(e) }`.
  abbrev pub rescue : {A : Type 0} → (E → Step W E A) → Outcome E A × W → Outcome E A × W
  rescue h (returned a, w) = (returned a, w)
  rescue h (threw e, w) = h e w

  abbrev pub catch : {A : Type 0} → Step W E A → (E → Step W E A) → Step W E A
  catch m h w = rescue h (m w)

  -- A property of a sequence's outcome, from the property of what comes after the first call's value.
  pub >>=-post {ℓ} :
      {A B : Type 0} (Q : Outcome E B → Type ℓ) (m : Step W E A) (f : A → Step W E B) (w : W)
      → ((e : E) → Q (threw e))
      → ((a : A) (w' : W) → (m w).0 ≡ returned a → Q (f a w').0)
      → Q ((m >>= f) w).0
  >>=-post {A} {B} Q m f w stop go = split (m w).0 refl
    where
      split : (o : Outcome E A) → (m w).0 ≡ o → Q ((m >>= f) w).0
      split (returned a) h = rw (◌>>=◌, after, h) (go a (m w).1 h)
      split (threw e) h = rw (◌>>=◌, after, h) (stop e)

  -- The same, with the world that the first call leaves.
  pub >>=-ends {ℓ} :
      {A B : Type 0} (Q : Outcome E B → Type ℓ) (m : Step W E A) (f : A → Step W E B) (w : W)
      → ((e : E) → Q (threw e))
      → ((a : A) (w' : W) → m w ≡ (returned a, w') → Q (f a w').0)
      → Q ((m >>= f) w).0
  >>=-ends {A} {B} Q m f w stop go = split (m w) refl
    where
      split : (r : Outcome E A × W) → m w ≡ r → Q (after f r).0
      split (returned a, w') h = go a w' h
      split (threw e, w') h = stop e

  -- What a sequence throws, its first call or what comes after it has thrown.
  pub >>=-throws {ℓ} :
      {A B : Type 0} (Q : E → Type ℓ) (m : Step W E A) (f : A → Step W E B) (w : W)
      → ((e : E) → (m w).0 ≡ threw e → Q e)
      → ((a : A) (w' : W) (e : E) → (m w).0 ≡ returned a → (f a w').0 ≡ threw e → Q e)
      → (e : E) → ((m >>= f) w).0 ≡ threw e
      → Q e
  >>=-throws {A} {B} Q m f w first later e h = split (m w) refl h
    where
      split : (r : Outcome E A × W) → m w ≡ r → (after f r).0 ≡ threw e → Q e
      split (returned a, w') s t = later a w' e (ap (λ r. r.0) s) t
      split (threw x, w') s t = first e (ap (λ r. r.0) s ∙ ap threw same)
        where
          same : x ≡ e
          same = cc

  pub >>=-returned :
      {A B : Type 0} (m : Step W E A) (f : A → Step W E B) {a : A} {w w' : W}
      → m w ≡ (returned a, w')
      → (m >>= f) w ≡ f a w'
  >>=-returned m f h = ap (after f) h

  pub >>=-threw :
      {A B : Type 0} (m : Step W E A) (f : A → Step W E B) {e : E} {w w' : W}
      → m w ≡ (threw e, w')
      → (m >>= f) w ≡ (threw e, w')
  >>=-threw m f h = ap (after f) h
