-- ===== src/Alarm/Refines.antt =====
-- src/alarm/index.ts: the wake map is a finite map of intents, and the alarm is never after one of them.
use looping_core.Alarm.Keys.{update, look_up-store, look_up-remove, absent-remove}
use looping_core.Alarm.Armed.{
  IsArmed, IsArmed-none, IsAwake, rearm-IsAwake, rearm-put, rearm_for-intents,
}
use looping_core.Base.{
  ℕ, String, false, Option, none, some, List, [], ◌∷◌, any, str_eq, ◌≡◌, refl, sym, ap, ◌∙◌, subst,
  Bool-cases, ◌⊎◌, inl, inr,
}
use looping_core.Alarm.Model.{
  WakeIntent, DurableStorage, look_up_intent, remove_intent, or_empty, all_intents, get_intent,
  rearm, set_intent, clear_intent, repair_if, repair,
}

-- What an object may ask of its wake map.
pub data WakeOp : Type 0 where
  set : WakeIntent → WakeOp
  clear : String → WakeOp
  rearm_now : WakeOp
  repair_at : ℕ → WakeOp

module _ (storage : DurableStorage) where
  open storage use {State}

  unfoldable pub apply : WakeOp → State → State
  unfolding set_intent clear_intent rearm repair
  apply (set intent) s = set_intent storage intent s
  apply (clear key) s = clear_intent storage key s
  apply rearm_now s = rearm storage s
  apply (repair_at now) s = repair storage now s

  unfoldable pub run_ops : List WakeOp → State → State
  unfolding apply
  run_ops [] s = s
  run_ops (op ∷ ops) s = run_ops ops (apply op s)

  repair-intents :
      (o : Option ℕ) (now : ℕ) (s : State)
      → all_intents storage (repair_if storage o now s) ≡ all_intents storage s
  unfolding repair_if all_intents
  repair-intents none now s = ap or_empty (storage.get-set _ s)
  repair-intents (some a) now s = refl

  repair_if-IsAwake :
      (o : Option ℕ) (now : ℕ) (s : State)
      → storage.get_alarm s ≡ o
      → IsAwake storage s
      → IsAwake storage (repair_if storage o now s)
  unfolding repair_if
  repair_if-IsAwake none now s h awake =
      let alarm = storage.get_alarm (repair_if storage none now s) in
      subst (IsArmed alarm) (sym (repair-intents none now s)) (
        IsArmed-none alarm (all_intents storage s)
          (subst (λ o. IsArmed o (all_intents storage s)) h awake))
  repair_if-IsAwake (some a) now s h awake = awake

  clear-cases :
      (key : String) (s : State)
      → ((clear_intent storage key s ≡ s)
          × (any (λ e. str_eq e.0 key) (all_intents storage s) ≡ false))
        ⊎ (clear_intent storage key s
            ≡ rearm storage (storage.put_wake (remove_intent key (all_intents storage s)) s))
  unfolding clear_intent
  clear-cases key s = elim (Bool-cases (any (λ e. str_eq e.0 key) (all_intents storage s))) [
    | inl held ↦ inr (rw held refl)
    | inr absent ↦ inl (rw absent refl, absent)
  ]

  apply-IsAwake : (op : WakeOp) (s : State) → IsAwake storage s → IsAwake storage (apply op s)
  unfolding apply set_intent repair
  apply-IsAwake (set intent) s awake = rearm-IsAwake storage _
  apply-IsAwake (clear key) s awake = elim (clear-cases key s) [
    | inl (same, absent) ↦ rw same awake
    | inr cleared ↦ rw cleared (rearm-IsAwake storage _)
  ]
  apply-IsAwake rearm_now s awake = rearm-IsAwake storage s
  apply-IsAwake (repair_at now) s awake = repair_if-IsAwake (storage.get_alarm s) now s refl awake

-- The operations on a function from keys to intents.
abbrev pub step_map : WakeOp → (String → Option WakeIntent) → String → Option WakeIntent
step_map (set intent) f = update intent.key (some intent) f
step_map (clear key) f = update key none f
step_map rearm_now f = f
step_map (repair_at now) f = f

unfoldable pub replay : List WakeOp → (String → Option WakeIntent) → String → Option WakeIntent
replay [] f = f
replay (op ∷ ops) f = replay ops (step_map op f)

step_map-same :
    (op : WakeOp) (f g : String → Option WakeIntent)
    → ((k : String) → f k ≡ g k)
    → (k : String) → step_map op f k ≡ step_map op g k
step_map-same (set intent) f g h k = rw (h k) refl
step_map-same (clear key) f g h k = rw (h k) refl
step_map-same rearm_now f g h k = h k
step_map-same (repair_at now) f g h k = h k

replay-same :
    (ops : List WakeOp) (f g : String → Option WakeIntent)
    → ((k : String) → f k ≡ g k)
    → (k : String) → replay ops f k ≡ replay ops g k
unfolding replay
replay-same [] f g h k = h k
replay-same (op ∷ ops) f g h k =
    replay-same ops (step_map op f) (step_map op g) (step_map-same op f g h) k

module _ (storage : DurableStorage) where
  open storage use {State}

  apply-get :
      (op : WakeOp) (s : State) (k : String)
      → get_intent storage k (apply storage op s) ≡ step_map op (λ j. get_intent storage j s) k
  unfolding apply get_intent set_intent repair rearm
  apply-get (set intent) s k =
      ap (look_up_intent k) (rearm-put storage _ s)
      ∙ look_up-store intent.key k intent (all_intents storage s)
  apply-get (clear key) s k =
      let m = all_intents storage s in
      elim (clear-cases storage key s) [
        | inl (same, absent) ↦
            ap (get_intent storage k) same
            ∙ sym (ap (look_up_intent k) (absent-remove key m absent))
            ∙ look_up-remove key k m
        | inr cleared ↦
            ap (get_intent storage k) cleared
            ∙ ap (look_up_intent k) (rearm-put storage (remove_intent key m) s)
            ∙ look_up-remove key k m
      ]
  apply-get rearm_now s k = ap (look_up_intent k) (rearm_for-intents storage _ s)
  apply-get (repair_at now) s k =
      ap (look_up_intent k) (repair-intents storage (storage.get_alarm s) now s)

  -- Whatever is set, cleared, re-armed and repaired, and in whatever order: a key holds what it holds
  -- after the same operations on a function from keys to intents. And if the alarm was set by the time of
  -- every intent at first, it is so at the end.
  pub run_ops-refines :
      (ops : List WakeOp) (s : State)
      → IsAwake storage s
      → IsAwake storage (run_ops storage ops s)
        × ((k : String)
            → get_intent storage k (run_ops storage ops s)
              ≡ replay ops (λ j. get_intent storage j s) k)
  unfolding run_ops replay
  run_ops-refines [] s awake = (awake, λ k. refl)
  run_ops-refines (op ∷ ops) s awake =
      let rest = run_ops-refines ops (apply storage op s) (apply-IsAwake storage op s awake) in
      (
        rest.0,
        λ k.
            rest.1 k
            ∙ replay-same ops (λ j. get_intent storage j (apply storage op s))
                (step_map op (λ j. get_intent storage j s)) (apply-get op s) k,
      )
