-- ===== src/Job/Examples.antt =====
-- A job of src/job over a storage in memory, and the theorems about it there.
use looping_core.Base.{
  ℕ, String, Bool, true, false, Option, none, some, [], ◌∷◌, returned, ◌≡◌, refl, arith,
}
use looping_core.Job.Lifecycle.{
  JobState, done, granted, refused, JobOptions, Rows, JobEnv, new_job, read_state, arm, claim,
  generation,
}
use looping_core.Job.Arming.{IsArming, placeholder_at, arm-IsArming, arm-excludes}
use looping_core.Job.Latch.{ask_still_mine, owned_so_far, ask_still_mine-owned}

-- The world: the rows, a clock, and whether the wake map takes an intent.
abbrev desk : JobEnv
desk = record {
  World = Rows String × ℕ × Bool;
  Extra = String;
  E = String;
  rows = λ w. w.0;
  put_rows = λ r w. (r, w.1, w.2);
  now = λ w. (w.1, w);
  wake_set = λ k t w. (set_or_fail w.2, w);
  try_unarm = λ w. (record w.0 { armed = none }, w.1, w.2);
  rows-put = λ r w. refl;
  rows-now = λ w. refl;
  rows-wake = λ k t w. refl;
  unarm-state = λ w. refl;
  unarm-last = λ w. refl;
}
  where
    set_or_fail : Bool → Option String
    set_or_fail true = none
    set_or_fail false = some "storage"

abbrev installed : JobState String
installed = done (record { exit_code = 0; finished_at = 9; ms = 5; tail = none; extra = "npm" })

abbrev rows : Rows String
rows = record { state = some installed; armed = none; last_armed = none; context_started_at = none }

abbrev options : JobOptions
options = record { id = "install"; stale_ms = 300; watch_ms = 60; arm_cooldown_ms = 300 }

abbrev job_world : Bool → Rows String × ℕ × Bool
job_world wakes = (rows, 1000, wakes)

made : new_job "install" (some 300) (some 60) (some 300) ≡ returned options
unfolding new_job
made = refl

abbrev after_arming : Rows String × ℕ × Bool
after_arming = (arm desk options (none, "npm ci") (job_world true)).1

armed : arm desk options (none, "npm ci") (job_world true) ≡ (returned (some 1000), after_arming)
unfolding arm
armed = refl

unwound : read_state desk (arm desk options (none, "npm ci") (job_world false)).1 ≡ installed
unfolding arm
unwound = refl

arm-IsArming_example :
    IsArming desk
      (none, "npm ci")
      (job_world false)
      (arm desk options (none, "npm ci") (job_world false))
arm-IsArming_example = arm-IsArming desk options (none, "npm ci") (job_world false)

arm-excludes_example :
    (claim options (read_state desk after_arming) 600 (some 1000) 1500 ≡ granted)
    × (claim options (read_state desk after_arming) 600 none 1500
        ≡ refused (placeholder_at desk 1000 (none, "npm ci")))
    × (arm desk options (none, "npm i") after_arming ≡ (returned none, after_arming))
arm-excludes_example =
    arm-excludes desk options (none, "npm ci") (none, "npm i") (job_world true) after_arming 1000
      600 1500 none armed (omega arith) refl

ask_still_mine-owned_example :
    ask_still_mine (generation 7) (some 7 ∷ some 8 ∷ some 7 ∷ [])
    ≡ owned_so_far 7 (some 7 ∷ some 8 ∷ some 7 ∷ [])
ask_still_mine-owned_example = ask_still_mine-owned 7 (some 7 ∷ some 8 ∷ some 7 ∷ [])
