-- ===== src/Job/Lifecycle.antt =====
-- src/job/state.ts and src/job/lifecycle.ts: the record of a job, arming it, claiming a run, and the
-- generation of a run. The storage is seen by the four rows that the job owns; the wake map and the
-- clock are operations.
use Prim.Native.String.{◌++◌ as ◌<>◌}
use looping_core.Base.{
  ℕ, ◌+◌, String, Bool, true, false, not, Option, none, some, Outcome, returned, threw, ltb, ◌==◌,
  str_eq, if◌then◌else◌, ◌≡◌,
}

pub record RunningJob (Extra : Type 0) : Type 0 where
  pub started_at : ℕ
  pub tail : Option String
  pub extra : Extra

pub record DoneJob (Extra : Type 0) : Type 0 where
  pub exit_code : ℕ
  pub finished_at : ℕ
  pub ms : ℕ
  pub tail : Option String
  pub extra : Extra

pub record FailedJob (Extra : Type 0) : Type 0 where
  pub finished_at : ℕ
  pub error : String
  pub exit_code : Option ℕ
  pub tail : Option String
  pub extra : Extra

pub data JobState (Extra : Type 0) : Type 0 where
  idle : JobState Extra
  skipped : String → JobState Extra
  running : RunningJob Extra → JobState Extra
  done : DoneJob Extra → JobState Extra
  failed : FailedJob Extra → JobState Extra

unfoldable pub is_rearmable : {Extra : Type 0} → JobState Extra → Bool
is_rearmable idle = false
is_rearmable (skipped reason) = false
is_rearmable (running job) = false
is_rearmable (done job) = true
is_rearmable (failed job) = true

-- What a job's caller is told.
pub data Claim (Extra : Type 0) : Type 0 where
  granted : Claim Extra
  refused : RunningJob Extra → Claim Extra

pub record JobOptions : Type 0 where
  pub id : String
  pub stale_ms : ℕ
  pub watch_ms : ℕ
  pub arm_cooldown_ms : ℕ

unfoldable pub run_intent : JobOptions → String
run_intent o = o.id <> "-run"

unfoldable pub watch_intent : JobOptions → String
watch_intent o = o.id <> "-watch"

pub data BadId : Type 0 where
  empty_id reserved_id : BadId

-- The constructor's defaults, and its two refusals.
unfoldable pub new_job : String → Option ℕ → Option ℕ → Option ℕ → Outcome BadId JobOptions
new_job id stale watch cooldown =
    if str_eq id ""
    then threw empty_id
    else if str_eq id "wake"
    then threw reserved_id
    else returned (record {
      id = id;
      stale_ms = or_default stale 300000;
      watch_ms = or_default watch 60000;
      arm_cooldown_ms = or_default cooldown 300000;
    })
  where
    or_default : Option ℕ → ℕ → ℕ
    or_default none n = n
    or_default (some n) m = n

-- The rows under the keys `id`, `id:armed`, `id:last-armed` and `id:context`.
pub record Rows (Extra : Type 0) : Type 0 where
  pub state : Option (JobState Extra)
  pub armed : Option ℕ
  pub last_armed : Option ℕ
  pub context_started_at : Option ℕ

-- `try_unarm` deletes the row `id:armed`, and a failure of that is ignored.
pub record JobEnv : Type 1 where
  pub World : Type 0
  pub Extra : Type 0
  pub E : Type 0
  pub rows : World → Rows Extra
  pub put_rows : Rows Extra → World → World
  pub now : World → ℕ × World
  pub wake_set : String → ℕ → World → Option E × World
  pub try_unarm : World → World
  pub rows-put : (r : Rows Extra) (w : World) → rows (put_rows r w) ≡ r
  pub rows-now : (w : World) → rows (now w).1 ≡ rows w
  pub rows-wake : (k : String) (t : ℕ) (w : World) → rows (wake_set k t w).1 ≡ rows w
  pub unarm-state : (w : World) → (rows (try_unarm w)).state ≡ (rows w).state
  pub unarm-last : (w : World) → (rows (try_unarm w)).last_armed ≡ (rows w).last_armed

unfoldable pub is_cooling : JobOptions → Option ℕ → ℕ → Bool
is_cooling o none t = false
is_cooling o (some last) t = ltb t (last + o.arm_cooldown_ms)

module _ (env : JobEnv) where
  open env use {World, Extra, E}

  abbrev pub or_idle : Option (JobState Extra) → JobState Extra
  or_idle none = idle
  or_idle (some s) = s

  unfoldable pub read_state : World → JobState Extra
  read_state w = or_idle (env.rows w).state

  unfoldable pub write_state : JobState Extra → World → World
  write_state s w = env.put_rows (record (env.rows w) { state = some s }) w

  abbrev pub put_armed : ℕ → World → World
  put_armed t w = env.put_rows (record (env.rows w) { armed = some t }) w

  abbrev pub put_last_armed : ℕ → World → World
  put_last_armed t w = env.put_rows (record (env.rows w) { last_armed = some t }) w

  unfoldable pub put_context : ℕ → World → World
  put_context t w = env.put_rows (record (env.rows w) { context_started_at = some t }) w

  unfoldable pub clear_armed : World → World
  clear_armed w = env.put_rows (record (env.rows w) { armed = none }) w

  -- After the schedule was asked for: the stamp, or the record as it was found and the fault.
  unfoldable pub settle_arm : JobState Extra → ℕ → Option E × World → Outcome E (Option ℕ) × World
  unfolding write_state
  settle_arm found t (none, w) = (returned (some t), w)
  settle_arm found t (some e, w) = (threw e, env.try_unarm (write_state found w))

  -- The four writes of an arming.
  unfoldable pub arm_at :
      JobOptions → JobState Extra → Option String × Extra → ℕ × World → Outcome E (Option ℕ) × World
  unfolding settle_arm write_state run_intent
  arm_at o found placeholder (t, w) =
      let job : RunningJob Extra = record {
        started_at = t;
        tail = placeholder.0;
        extra = placeholder.1;
      } in
      settle_arm found t (
        env.wake_set (run_intent o) t
          (put_last_armed t (put_armed t (write_state (running job) w))))

  -- The clock is read for the floor only where a job was armed before.
  unfoldable pub after_floor : Option ℕ → World → ℕ × World
  after_floor none w = (0, w)
  after_floor (some last) w = env.now w

  unfoldable pub arm : JobOptions → Option String × Extra → World → Outcome E (Option ℕ) × World
  unfolding read_state is_rearmable arm_at is_cooling after_floor
  arm o placeholder w =
      let found = read_state w in
      let last = (env.rows w).last_armed in
      let floor = after_floor last w in
      if not (is_rearmable found)
      then (returned none, w)
      else if is_cooling o last floor.0
      then (returned none, floor.1)
      else arm_at o found placeholder (env.now floor.1)

  unfoldable pub arm_watch : JobOptions → ℕ → World → Option E × World
  unfolding watch_intent
  arm_watch o now w = env.wake_set (watch_intent o) (now + o.watch_ms) w

unfoldable pub is_stale : {Extra : Type 0} → JobOptions → RunningJob Extra → ℕ → ℕ → Bool
is_stale o job timeout_ms now = ltb (job.started_at + (timeout_ms + o.stale_ms)) now

abbrev pub is_stamp : Option ℕ → ℕ → Bool
is_stamp none t = false
is_stamp (some a) t = t == a

unfoldable pub claim :
    {Extra : Type 0} → JobOptions → JobState Extra → ℕ → Option ℕ → ℕ → Claim Extra
unfolding is_stale
claim o idle timeout_ms take_over now = granted
claim o (skipped reason) timeout_ms take_over now = granted
claim o (done job) timeout_ms take_over now = granted
claim o (failed job) timeout_ms take_over now = granted
claim o (running job) timeout_ms take_over now =
    if is_stamp take_over job.started_at
    then granted
    else if is_stale o job timeout_ms now
    then granted
    else refused job

-- The latch of `generation`: the stamp that was captured, and whether it was found superseded.
pub record Generation : Type 0 where
  pub started_at : ℕ
  pub superseded : Bool

unfoldable pub generation : ℕ → Generation
generation t = record { started_at = t; superseded = false }

-- `stillMine`, at the stamp that the context on disk bears.
unfoldable pub still_mine : Generation → Option ℕ → Bool × Generation
still_mine g context =
    if g.superseded
    then (false, g)
    else if is_stamp context g.started_at
    then (true, g)
    else (false, record g { superseded = true })
