-- ===== src/Alarm/Armed.antt =====
-- src/alarm/index.ts: the alarm is never after one of the intents.
use looping_core.Base.{
  ℕ, ◌≤◌, Option, none, some, [], ◌∷◌, ltb, ◌≡◌, refl, sym, ap, ◌∙◌, subst, arith, Bool-cases, inl,
  inr,
}
use looping_core.Alarm.Model.{
  Intents, DurableStorage, earliest_of, or_empty, all_intents, arm_by, disarm, rearm_for, rearm,
}

-- Whether an alarm is set, and not after a time.
abbrev pub IsBy : Option ℕ → ℕ → Type 0
IsBy none t = ⊥
IsBy (some a) t = a ≤ t

-- The alarm is set by the time of each of the intents.
abbrev pub IsArmed : Option ℕ → Intents → Type 0
IsArmed o [] = Unit
IsArmed o ((k, i) ∷ m) = IsBy o i.not_before × IsArmed o m

earliest-le : (a t : ℕ) (m : Intents) → a ≤ earliest_of t m → (a ≤ t) × IsArmed (some a) m
unfolding earliest_of
earliest-le a t [] h = (h, tt)
earliest-le a t ((k, i) ∷ m) h =
    let both : (a ≤ i.not_before) × (a ≤ earliest_of t m) = (ground arith, ground arith) in
    let rest = earliest-le a t m both.1 in (rest.0, (both.0, rest.1))

-- Where no alarm is set there is no intent, and then any alarm will do.
pub IsArmed-none : (o : Option ℕ) (m : Intents) → IsArmed none m → IsArmed o m
IsArmed-none o [] h = tt
IsArmed-none o ((k, i) ∷ m) h = absurd h.0

module _ (storage : DurableStorage) where
  open storage use {State}

  arm_by-intents :
      (o : Option ℕ) (t : ℕ) (s : State)
      → all_intents storage (arm_by storage o t s) ≡ all_intents storage s
  unfolding arm_by all_intents
  arm_by-intents none t s = ap or_empty (storage.get-set t s)
  arm_by-intents (some a) t s = elim (Bool-cases (ltb t a)) [
    | inl sooner ↦ rw sooner (ap or_empty (storage.get-set t s))
    | inr later ↦ rw later refl
  ]

  disarm-intents :
      (o : Option ℕ) (s : State) → all_intents storage (disarm storage o s) ≡ all_intents storage s
  unfolding disarm all_intents
  disarm-intents none s = refl
  disarm-intents (some a) s = ap or_empty (storage.get-delete s)

  pub rearm_for-intents :
      (m : Intents) (s : State)
      → all_intents storage (rearm_for storage m s) ≡ all_intents storage s
  unfolding rearm_for
  rearm_for-intents [] s = disarm-intents (storage.get_alarm s) s
  rearm_for-intents ((k, i) ∷ m) s =
      arm_by-intents (storage.get_alarm s) (earliest_of i.not_before m) s

  arm_by-alarm :
      (o : Option ℕ) (t : ℕ) (s : State)
      → storage.get_alarm s ≡ o
      → (a : ℕ) × (storage.get_alarm (arm_by storage o t s) ≡ some a) × (a ≤ t)
  unfolding arm_by
  arm_by-alarm none t s h = (t, storage.alarm-set t s, omega arith)
  arm_by-alarm (some a) t s h = elim (Bool-cases (ltb t a)) [
    | inl sooner ↦ rw sooner (t, storage.alarm-set t s, omega arith)
    | inr later ↦ rw later (a, h, ground arith)
  ]

  rearm_for-IsArmed :
      (m : Intents) (s : State) → IsArmed (storage.get_alarm (rearm_for storage m s)) m
  unfolding rearm_for
  rearm_for-IsArmed [] s = tt
  rearm_for-IsArmed ((k, i) ∷ m) s =
      let armed = arm_by-alarm (storage.get_alarm s) (earliest_of i.not_before m) s refl in
      subst (λ o. IsArmed o ((k, i) ∷ m)) (sym armed.1) (earliest-le armed.0 i.not_before m armed.2)

  -- Every intent of the map has the alarm set by its time.
  abbrev pub IsAwake : State → Type 0
  IsAwake s = IsArmed (storage.get_alarm s) (all_intents storage s)

  pub rearm-IsAwake : (s : State) → IsAwake (rearm storage s)
  unfolding rearm
  rearm-IsAwake s =
      rw (rearm_for-intents (all_intents storage s) s) (rearm_for-IsArmed (all_intents storage s) s)

  pub put-intents : (m : Intents) (s : State) → all_intents storage (storage.put_wake m s) ≡ m
  unfolding all_intents
  put-intents m s = ap or_empty (storage.get-put m s)

  pub rearm-put :
      (m : Intents) (s : State) → all_intents storage (rearm storage (storage.put_wake m s)) ≡ m
  unfolding rearm
  rearm-put m s = rearm_for-intents _ (storage.put_wake m s) ∙ put-intents m s
