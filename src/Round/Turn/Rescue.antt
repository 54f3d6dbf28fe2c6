-- ===== src/Round/Turn/Rescue.antt =====
-- How a round of src/round/turn.ts may end: what is rescued, what is thrown, what is stored.
use looping_core.Base.{
  String, Bool, true, List, [], ◌∷◌, some, ◌≡◌, refl, arith, ◌==◌, map, any, find_first, Outcome,
  returned, threw, inl, inr, Bool-cases, Option-cases,
}
use looping_core.Agent.Budget.{TurnBudget}
use looping_core.Agent.Control.{reply, delegate}
use looping_core.Agent.History.{
  Role, SessionMessage, session_text, deterministic_session_message, final_reply_message_id,
  round_ack_message_id,
}
use looping_core.Agent.Session.{AppendRaises, append_once-stored, append_once-raises}
use looping_core.Base.Step.{>>=-throws}
use looping_core.Round.Turn.Env.{
  TurnFault, model_fault, storage_fault, RoundEnv, RunTurnArgs, RunTurnOutcome, replied, delegated,
  unrecoverable, exhausted,
}
use looping_core.Round.Turn.Join.{is_completed}
use looping_core.Round.Turn.Ladder.{
  settle, climb, close, greet, RoundView, read_view, conduct, run_turn, Ladder, SlotEnd, chose,
  blocked, gave_up, publish, join_or, give_up, deterministic_join, say,
}

find_first-passes {ℓ} :
    {A : Type ℓ} (p : A → Bool) (xs : List A) {x : A} → find_first p xs ≡ some x → p x ≡ true
find_first-passes p [] h = cc
find_first-passes p (y ∷ ys) h = elim (Bool-cases (p y)) [
  | inl yes_y ↦ ground (arith, yes_y)
  | inr no_y ↦ find_first-passes p ys (rw no_y at h)
]

module _ (env : RoundEnv) where
  open env use {Input, E, Kind, session}

  -- A fault that some call of the Session threw.
  pub data Raises (f : session.Fault) : Type 0 where
    by_append_once : AppendRaises session f → Raises f
    by_history : (w : session.State) → session.get_history w ≡ threw f → Raises f
    by_prompt : (w : session.State) → (env.refresh_system_prompt w).0 ≡ threw f → Raises f

  -- An answer, a delegation, a transient fault or a fault of the Session, and no failure.
  abbrev pub IsRescued : Outcome (TurnFault E session.Fault) (RunTurnOutcome E Kind) → Type 0
  IsRescued (returned (replied _)) = Unit
  IsRescued (returned (delegated _ _)) = Unit
  IsRescued (returned (unrecoverable _ _)) = ⊥
  IsRescued (returned (exhausted _ _)) = ⊥
  IsRescued (threw (model_fault e)) = env.is_transient e ≡ true
  IsRescued (threw (storage_fault f)) = Raises f

  say-Raises :
      (id : String) (role : Role) (text : String) (w : session.State) (f : session.Fault)
      → (say env id role text w).0 ≡ threw f
      → Raises f
  unfolding say deterministic_session_message
  say-Raises id role text w f h =
      by_append_once (append_once-raises session (deterministic_session_message id role text) w f h)

  close-IsRescued :
      (told : String → RunTurnOutcome E Kind) (b : TurnBudget)
      (said : Outcome session.Fault String × session.State)
      → ((t : String) → IsRescued (returned (told t)))
      → ((f : session.Fault) → said.0 ≡ threw f → Raises f)
      → IsRescued (close env told b said).outcome
  unfolding close
  close-IsRescued told b (returned t, w) k r = k t
  close-IsRescued told b (threw f, w) k r = r f refl

  join_or-IsRescued :
      (args : RunTurnArgs) (st : Ladder env) (o : RunTurnOutcome E Kind)
      → any is_completed args.branches ≡ true
      → IsRescued (join_or env args st o).outcome
  unfolding join_or
  join_or-IsRescued args st o h =
      rw (join_or, deterministic_join, h)
        (close-IsRescued replied st.budget _ (λ t. tt) (λ f r. say-Raises _ _ _ _ f r))

  give_up-IsRescued :
      (args : RunTurnArgs) (st : Ladder env)
      → any is_completed args.branches ≡ true
      → IsRescued (give_up env args st).outcome
  unfolding give_up
  give_up-IsRescued args st h =
      elim (Option-cases (find_first env.is_transient (map (λ d. d.error) st.diagnostics))) [
        | inl calm ↦ rw (IsRescued, give_up, calm) (join_or-IsRescued args st _ h)
        | inr (e, found) ↦
            rw (IsRescued, give_up, found) (find_first-passes env.is_transient _ found)
      ]

  settle-IsRescued :
      (args : RunTurnArgs) (end : SlotEnd env × Ladder env)
      → any is_completed args.branches ≡ true
      → IsRescued (settle env args end).outcome
  unfolding settle publish
  settle-IsRescued args (chose (reply t), st) h =
      close-IsRescued replied st.budget _ (λ t'. tt) (λ f r. say-Raises _ _ _ _ f r)
  settle-IsRescued args (chose (delegate t ds), st) h =
      close-IsRescued (λ t'. delegated t' ds) st.budget _ (λ t'. tt) (λ f r. say-Raises _ _ _ _ f r)
  settle-IsRescued args (blocked kind e, st) h = join_or-IsRescued args st _ h
  settle-IsRescued args (gave_up, st) h = give_up-IsRescued args st h

  greet-Raises :
      (args : RunTurnArgs) (w : session.State) (f : session.Fault)
      → (greet env args w).0 ≡ threw f
      → Raises f
  unfolding greet
  greet-Raises args w f h = elim (Bool-cases (args.round == 0)) [
    | inl first ↦ say-Raises _ _ _ w f (rw first at h)
    | inr later ↦ absurd (let h' = rw later at h in cc)
  ]

  read_view-Raises :
      (args : RunTurnArgs) (w : session.State) (f : session.Fault)
      → (read_view env args w).0 ≡ threw f
      → Raises f
  unfolding read_view
  read_view-Raises args w = >>=-throws Raises (greet env args) _ w (greet-Raises args w) λ t w₁ f _.
      >>=-throws Raises (λ v. (session.get_history v, v)) _ w₁ (λ e h. by_history w₁ h)
        (λ ms w₂ f' _.
          >>=-throws Raises env.refresh_system_prompt _ w₂ (λ e h. by_prompt w₂ h)
            (λ prompt w₃ e _ h. absurd (cc)) f')
        f

  conduct-IsRescued :
      (args : RunTurnArgs) (b : TurnBudget)
      (r : Outcome session.Fault (RoundView env) × session.State)
      → any is_completed args.branches ≡ true
      → ((f : session.Fault) → r.0 ≡ threw f → Raises f)
      → IsRescued (conduct env args b r).outcome
  unfolding conduct
  conduct-IsRescued args b (returned view, w) h k =
      settle-IsRescued args (climb env args b view w) h
  conduct-IsRescued args b (threw f, w) h k = k f refl

  -- A round with a completed branch behind it never fails, whatever its models do: it answers,
  -- delegates, throws a transient fault of a model, or throws a fault that a call of the Session threw.
  pub run_turn-IsRescued :
      (args : RunTurnArgs) (b : TurnBudget) (w : session.State)
      → any is_completed args.branches ≡ true
      → IsRescued (run_turn env args b w).outcome
  unfolding run_turn
  run_turn-IsRescued args b w h =
      conduct-IsRescued args b (read_view env args w) h (read_view-Raises args w)

  -- The world holds a message with this id and this text.
  abbrev pub Holds : String → String → session.State → Type 0
  Holds id text w =
      (m : SessionMessage) × (session.get_message id w ≡ returned (some m))
      × (session_text m ≡ text)

  -- What a round tells the user is in the Session, under the id that a replay looks it up by.
  abbrev pub IsStored :
      RunTurnArgs
      → Outcome (TurnFault E session.Fault) (RunTurnOutcome E Kind)
      → session.State
      → Type 0
  IsStored args (returned (replied t)) w = Holds (final_reply_message_id args.task_id) t w
  IsStored args (returned (delegated t _)) w =
      Holds (round_ack_message_id args.task_id args.round) t w
  IsStored args _ w = Unit

  say-Holds :
      (id : String) (role : Role) (text : String) (w : session.State) (t : String)
      → (say env id role text w).0 ≡ returned t
      → Holds id t (say env id role text w).1
  unfolding say deterministic_session_message
  say-Holds id role text w t h =
      append_once-stored session (deterministic_session_message id role text) w t h

  close-IsStored :
      (args : RunTurnArgs) (told : String → RunTurnOutcome E Kind) (b : TurnBudget)
      (said : Outcome session.Fault String × session.State)
      → ((t : String) → said.0 ≡ returned t → IsStored args (returned (told t)) said.1)
      → IsStored args (close env told b said).outcome (close env told b said).world
  unfolding close
  close-IsStored args told b (returned t, w) k = k t refl
  close-IsStored args told b (threw f, w) k = tt

  join_or-IsStored :
      (args : RunTurnArgs) (st : Ladder env) (o : RunTurnOutcome E Kind)
      → ((w : session.State) → IsStored args (returned o) w)
      → IsStored args (join_or env args st o).outcome (join_or env args st o).world
  unfolding join_or deterministic_join
  join_or-IsStored args st o k = elim (Bool-cases (any is_completed args.branches)) [
    | inl some_done ↦
        rw (join_or, deterministic_join, some_done)
          (close-IsStored args replied st.budget _ (λ t h. say-Holds _ _ _ _ t h))
    | inr none_done ↦ rw (IsStored, join_or, deterministic_join, none_done) (k st.world)
  ]

  settle-IsStored :
      (args : RunTurnArgs) (end : SlotEnd env × Ladder env)
      → IsStored args (settle env args end).outcome (settle env args end).world
  unfolding settle publish give_up
  settle-IsStored args (chose (reply t), st) =
      close-IsStored args replied st.budget _ (λ t' h. say-Holds _ _ _ _ t' h)
  settle-IsStored args (chose (delegate t ds), st) =
      close-IsStored args (λ t'. delegated t' ds) st.budget _ (λ t' h. say-Holds _ _ _ _ t' h)
  settle-IsStored args (blocked kind e, st) = join_or-IsStored args st _ (λ w. tt)
  settle-IsStored args (gave_up, st) =
      elim (Option-cases (find_first env.is_transient (map (λ d. d.error) st.diagnostics))) [
        | inl calm ↦ rw (IsStored, give_up, calm) (join_or-IsStored args st _ (λ w. tt))
        | inr (e, found) ↦ rw (IsStored, give_up, found) tt
      ]

  conduct-IsStored :
      (args : RunTurnArgs) (b : TurnBudget)
      (r : Outcome session.Fault (RoundView env) × session.State)
      → IsStored args (conduct env args b r).outcome (conduct env args b r).world
  unfolding conduct
  conduct-IsStored args b (returned view, w) = settle-IsStored args (climb env args b view w)
  conduct-IsStored args b (threw f, w) = tt

  -- Whatever a round answers or acknowledges is durable: the Session holds exactly that text, under
  -- the final reply's id or under the id of this round's acknowledgment.
  pub run_turn-IsStored :
      (args : RunTurnArgs) (b : TurnBudget) (w : session.State)
      → let run = run_turn env args b w in IsStored args run.outcome run.world
  unfolding run_turn
  run_turn-IsStored args b w = conduct-IsStored args b (read_view env args w)
