-- ===== src/Job/Arming.antt =====
-- src/job/lifecycle.ts: what arming leaves behind, and who may run then.
use looping_core.Base.{
  ℕ, ◌+◌, ◌≤◌, String, true, false, Option, none, some, Outcome, returned, threw, ltb, ◌==◌, ◌≡◌,
  refl, ap, ◌∙◌, subst, arith, Bool-cases, inl, inr,
}
use looping_core.Job.Lifecycle.{
  RunningJob, running, is_rearmable, granted, refused, JobOptions, run_intent, Rows, JobEnv,
  or_idle, read_state, write_state, put_armed, put_last_armed, settle_arm, arm_at, is_cooling,
  after_floor, arm, is_stale, is_stamp, claim,
}

module _ (env : JobEnv) where
  open env use {World, Extra, E}

  abbrev pub placeholder_at : ℕ → Option String × Extra → RunningJob Extra
  placeholder_at t p = record { started_at = t; tail = p.0; extra = p.1 }

  -- The rows of a job that is armed.
  abbrev pub armed_rows : ℕ → Option String × Extra → Rows Extra → Rows Extra
  armed_rows t p r = record r {
    state = some (running (placeholder_at t p));
    armed = some t;
    last_armed = some t;
  }

  -- What a call of `arm` leaves: a call that declines has written nothing; one that arms has found a
  -- record that may be armed, and leaves a placeholder, its stamp and the floor, all with one time; and one
  -- that throws leaves the record as it was found, and the floor.
  abbrev pub IsArming : Option String × Extra → World → Outcome E (Option ℕ) × World → Type 0
  IsArming p w (returned none, v) = env.rows v ≡ env.rows w
  IsArming p w (returned (some t), v) =
      (is_rearmable (read_state env w) ≡ true) × (env.rows v ≡ armed_rows t p (env.rows w))
  IsArming p w (threw e, v) =
      (is_rearmable (read_state env w) ≡ true)
      × ((env.rows v).state ≡ some (read_state env w))
      × ((t : ℕ) × ((env.rows v).last_armed ≡ some t))

  abbrev with_armed : ℕ → Rows Extra → Rows Extra
  with_armed t r = record r { armed = some t }

  abbrev with_last : ℕ → Rows Extra → Rows Extra
  with_last t r = record r { last_armed = some t }

  written-rows :
      (t : ℕ) (p : Option String × Extra) (w : World)
      → env.rows (
          put_last_armed env t (put_armed env t (write_state env (running (placeholder_at t p)) w)))
        ≡ armed_rows t p (env.rows w)
  unfolding write_state
  written-rows t p w =
      let stated = write_state env (running (placeholder_at t p)) w in
      env.rows-put _ (put_armed env t stated)
      ∙ ap (with_last t) (env.rows-put _ stated)
      ∙ ap (λ r. with_last t (with_armed t r)) (env.rows-put _ w)

  settle_arm-IsArming :
      (p : Option String × Extra) (w : World) (t : ℕ) (r : Option E × World)
      → is_rearmable (read_state env w) ≡ true
      → env.rows r.1 ≡ armed_rows t p (env.rows w)
      → IsArming p w (settle_arm env (read_state env w) t r)
  unfolding settle_arm write_state
  settle_arm-IsArming p w t (none, v) may h = (may, h)
  settle_arm-IsArming p w t (some e, v) may h =
      let found = read_state env w in
      let back = env.rows-put (record (env.rows v) { state = some found }) v in
      (
        may,
        env.unarm-state (write_state env found v) ∙ ap (λ r. r.state) back,
        (
          t,
          env.unarm-last (write_state env found v)
              ∙ ap (λ r. r.last_armed) back
              ∙ ap (λ r. r.last_armed) h,
        ),
      )

  after_floor-rows : (o : Option ℕ) (w : World) → env.rows (after_floor env o w).1 ≡ env.rows w
  unfolding after_floor
  after_floor-rows none w = refl
  after_floor-rows (some last) w = env.rows-now w

  -- A call of `arm` that declines has written nothing. One that arms has found a record that may be armed,
  -- and leaves a placeholder, its stamp and the floor, all with one time. One that throws, since the wake
  -- map took no intent, has found such a record too, and leaves the record as it was found, and the floor.
  pub arm-IsArming :
      (o : JobOptions) (p : Option String × Extra) (w : World) → IsArming p w (arm env o p w)
  unfolding arm arm_at
  arm-IsArming o p w =
      let last = (env.rows w).last_armed in
      let floor = after_floor env last w in
      elim (Bool-cases (is_rearmable (read_state env w))) [
        | inr fixed ↦ rw fixed refl
        | inl may ↦ elim (Bool-cases (is_cooling o last floor.0)) [
          | inl cooling ↦ rw (may, cooling) (after_floor-rows last w)
          | inr cool ↦
              let clock = env.now floor.1 in
              let same : env.rows clock.1 ≡ env.rows w =
                env.rows-now floor.1 ∙ after_floor-rows last w in
              let wake = env.wake_set (run_intent o) clock.0 (
                put_last_armed env clock.0 (
                  put_armed env clock.0
                    (write_state env (running (placeholder_at clock.0 p)) clock.1))) in
              rw (may, cool)
                (settle_arm-IsArming p w clock.0 wake may (
                  env.rows-wake (run_intent o) clock.0 _
                  ∙ written-rows clock.0 p clock.1
                  ∙ ap (armed_rows clock.0 p) same))
        ]
      ]

  -- Once a job is armed with a stamp, the alarm that presents the stamp may run it. Anyone who presents
  -- another stamp or none is refused, as long as the placeholder is not older than the job's timeout and
  -- the staleness bound together. And arming it again declines and changes nothing.
  pub arm-excludes :
      (o : JobOptions) (p q : Option String × Extra) (w v : World) (t timeout now : ℕ)
      (other : Option ℕ)
      → arm env o p w ≡ (returned (some t), v)
      → now ≤ t + (timeout + o.stale_ms)
      → is_stamp other t ≡ false
      → (claim o (read_state env v) timeout (some t) now ≡ granted)
        × (claim o (read_state env v) timeout other now ≡ refused (placeholder_at t p))
        × (arm env o q v ≡ (returned none, v))
  unfolding arm claim is_stale read_state
  arm-excludes o p q w v t timeout now other h young foreign =
      let left = subst (IsArming p w) h (arm-IsArming o p w) in
      let state : read_state env v ≡ running (placeholder_at t p) =
        ap (λ r. or_idle env r.state) left.1 in
      let own : (t == t) ≡ true = ground arith in
      let fresh : ltb (t + (timeout + o.stale_ms)) now ≡ false = ground arith in
      (
        rw (state, claim, own) refl,
        rw (state, claim, foreign, fresh) refl,
        rw (state, is_rearmable) refl,
      )
