-- ===== src/Alarm/Model.antt =====
-- src/alarm/index.ts, `WakeMap`. The storage of a Durable Object is an interface: the row under the key
-- "wake", and the alarm.
use looping_core.Base.{
  ℕ, ◌+◌, String, Bool, not, Option, none, some, List, [], ◌∷◌, any, keep_if, map, ltb, leb, str_eq,
  if◌then◌else◌, ◌≡◌,
}

pub record WakeIntent : Type 0 where
  pub key : String
  pub not_before : ℕ
  pub attempt : Option ℕ

-- A dictionary, in the order of its keys' insertion.
abbrev pub Intents : Type 0
Intents = List (String × WakeIntent)

pub record DurableStorage : Type 1 where
  pub State : Type 0
  pub get_wake : State → Option Intents
  pub put_wake : Intents → State → State
  pub get_alarm : State → Option ℕ
  pub set_alarm : ℕ → State → State
  pub delete_alarm : State → State
  pub get-put : (m : Intents) (s : State) → get_wake (put_wake m s) ≡ some m
  pub alarm-put : (m : Intents) (s : State) → get_alarm (put_wake m s) ≡ get_alarm s
  pub get-set : (t : ℕ) (s : State) → get_wake (set_alarm t s) ≡ get_wake s
  pub alarm-set : (t : ℕ) (s : State) → get_alarm (set_alarm t s) ≡ some t
  pub get-delete : (s : State) → get_wake (delete_alarm s) ≡ get_wake s
  pub alarm-delete : (s : State) → get_alarm (delete_alarm s) ≡ none

unfoldable pub look_up_intent : String → Intents → Option WakeIntent
look_up_intent key [] = none
look_up_intent key ((k, intent) ∷ m) = if str_eq k key then some intent else look_up_intent key m

-- `all[key] = intent`.
unfoldable pub store_intent : String → WakeIntent → Intents → Intents
store_intent key intent [] = (key, intent) ∷ []
store_intent key intent ((k, old) ∷ m) =
    if str_eq k key then (k, intent) ∷ m else (k, old) ∷ store_intent key intent m

-- `delete all[key]`.
unfoldable pub remove_intent : String → Intents → Intents
remove_intent key m = keep_if (λ e. not (str_eq e.0 key)) m

-- `Math.min` of the deadlines.
unfoldable pub earliest_of : ℕ → Intents → ℕ
earliest_of t [] = t
earliest_of t ((k, intent) ∷ m) =
    let least = earliest_of t m in if ltb intent.not_before least then intent.not_before else least

-- A stable insertion by deadline.
unfoldable pub insert_by_deadline : WakeIntent → List WakeIntent → List WakeIntent
insert_by_deadline x [] = x ∷ []
insert_by_deadline x (y ∷ ys) =
    if leb x.not_before y.not_before then x ∷ y ∷ ys else y ∷ insert_by_deadline x ys

unfoldable pub sort_by_deadline : List WakeIntent → List WakeIntent
unfolding insert_by_deadline
sort_by_deadline [] = []
sort_by_deadline (x ∷ xs) = insert_by_deadline x (sort_by_deadline xs)

abbrev pub is_due : ℕ → WakeIntent → Bool
is_due now intent = leb intent.not_before now

abbrev pub or_empty : Option Intents → Intents
or_empty none = []
or_empty (some m) = m

unfoldable pub wake_repair_ms : ℕ
wake_repair_ms = 60000

module _ (storage : DurableStorage) where
  open storage use {State}

  unfoldable pub all_intents : State → Intents
  all_intents s = or_empty (storage.get_wake s)

  unfoldable pub get_intent : String → State → Option WakeIntent
  unfolding all_intents
  get_intent key s = look_up_intent key (all_intents s)

  -- The alarm only ever moves to an earlier time.
  unfoldable pub arm_by : Option ℕ → ℕ → State → State
  arm_by none earliest s = storage.set_alarm earliest s
  arm_by (some existing) earliest s =
      if ltb earliest existing then storage.set_alarm earliest s else s

  unfoldable pub disarm : Option ℕ → State → State
  disarm none s = s
  disarm (some existing) s = storage.delete_alarm s

  unfoldable pub rearm_for : Intents → State → State
  unfolding arm_by disarm earliest_of
  rearm_for [] s = disarm (storage.get_alarm s) s
  rearm_for ((k, intent) ∷ m) s = arm_by (storage.get_alarm s) (earliest_of intent.not_before m) s

  unfoldable pub rearm : State → State
  unfolding rearm_for all_intents
  rearm s = rearm_for (all_intents s) s

  unfoldable pub set_intent : WakeIntent → State → State
  unfolding rearm all_intents store_intent
  set_intent intent s = rearm (storage.put_wake (store_intent intent.key intent (all_intents s)) s)

  unfoldable pub clear_intent : String → State → State
  unfolding rearm all_intents remove_intent
  clear_intent key s =
      let m = all_intents s in
      let cleared = rearm (storage.put_wake (remove_intent key m) s) in
      if any (λ e. str_eq e.0 key) m then cleared else s

  unfoldable pub due_intents : ℕ → State → List WakeIntent
  unfolding all_intents sort_by_deadline
  due_intents now s = sort_by_deadline (keep_if (is_due now) (map (λ e. e.1) (all_intents s)))

  unfoldable pub repair_if : Option ℕ → ℕ → State → State
  unfolding wake_repair_ms
  repair_if none now s = storage.set_alarm (now + wake_repair_ms) s
  repair_if (some existing) now s = s

  unfoldable pub repair : ℕ → State → State
  unfolding repair_if
  repair now s = repair_if (storage.get_alarm s) now s
