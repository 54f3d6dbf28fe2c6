-- ===== src/Alarm/Examples.antt =====
-- A wake map of src/alarm over a storage in memory, and the theorem about it there.
use looping_core.Base.{ℕ, String, Option, none, some, List, [], ◌∷◌, ◌≡◌, refl}
use looping_core.Alarm.Model.{WakeIntent, Intents, DurableStorage, get_intent, due_intents}
use looping_core.Alarm.Armed.{IsAwake}
use looping_core.Alarm.Refines.{WakeOp, set, clear, repair_at, run_ops, replay, run_ops-refines}

abbrev in_memory : DurableStorage
in_memory = record {
  State = Option Intents × Option ℕ;
  get_wake = λ s. s.0;
  put_wake = λ m s. (some m, s.1);
  get_alarm = λ s. s.1;
  set_alarm = λ t s. (s.0, some t);
  delete_alarm = λ s. (s.0, none);
  get-put = λ m s. refl;
  alarm-put = λ m s. refl;
  get-set = λ t s. refl;
  alarm-set = λ t s. refl;
  get-delete = λ s. refl;
  alarm-delete = λ s. refl;
}

abbrev empty_storage : Option Intents × Option ℕ
empty_storage = (none, none)

abbrev retry_at : ℕ → WakeIntent
retry_at t = record { key = "retry"; not_before = t; attempt = some 1 }

abbrev watch : WakeIntent
watch = record { key = "watch"; not_before = 50; attempt = none }

abbrev calls : List WakeOp
calls = set (retry_at 80) ∷ set watch ∷ set (retry_at 20) ∷ repair_at 5 ∷ clear "watch" ∷ []

alarm_after : (run_ops in_memory calls empty_storage).1 ≡ some 20
unfolding run_ops
alarm_after = refl

both_due :
    due_intents in_memory 60 (run_ops in_memory (set watch ∷ set (retry_at 20) ∷ []) empty_storage)
    ≡ retry_at 20 ∷ watch ∷ []
unfolding run_ops due_intents
both_due = refl

empty_storage-IsAwake : IsAwake in_memory empty_storage
unfolding looping_core.Alarm.Model.all_intents
empty_storage-IsAwake = tt

run_ops-refines_example :
    IsAwake in_memory (run_ops in_memory calls empty_storage)
    × ((k : String)
        → get_intent in_memory k (run_ops in_memory calls empty_storage)
          ≡ replay calls (λ j. get_intent in_memory j empty_storage) k)
run_ops-refines_example = run_ops-refines in_memory calls empty_storage empty_storage-IsAwake
