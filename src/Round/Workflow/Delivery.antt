-- ===== src/Round/Workflow/Delivery.antt =====
-- What `runHandleTask` of src/round/workflow.ts and the deliveries of src/a2a/deliver.ts promise.
use looping_core.Base.{
  Bool, true, false, sym, subst, ◌≡◌, refl, ◌⊎◌, inl, inr, Outcome, returned, threw, arith, ap, ◌∙◌,
}
use looping_core.Base.Step.{Step, after, pure, rescue}
use looping_core.A2a.Deliver.{
  Fault, step_fault, already_terminal, TerminalTask, DeliverTerminalOptions, deliver_terminal_task,
  deliver_abandoned_task, after_save, marking, rethrow,
}
use looping_core.Round.Workflow.Agent.{TaskAgent, HandleTaskDeps}
use looping_core.Round.Workflow.Handle.{orchestrate, run_handle_task}

module _ (agent : TaskAgent) (deps : HandleTaskDeps agent.Kind) where
  open agent use {W, E, delivery}

  abbrev Ran : Type 0
  Ran = Outcome (Fault E) (Unit {0}) × W

  abbrev recovery : Fault E → Step W (Fault E) (Unit {0})
  recovery cause = deliver_abandoned_task delivery deps.task_failed cause

  abandoned_throws :
      (cause f : Fault E) (w : W)
      → (deliver_abandoned_task delivery deps.task_failed cause w).0 ≡ threw f
      → (e : E) × (f ≡ step_fault e) × ((cause ≡ step_fault e) ⊎ (cause ≡ already_terminal e))
  unfolding deliver_abandoned_task
  abandoned_throws (already_terminal e) f w h = (e, cc, inr refl)
  abandoned_throws (step_fault e) f w h = (e, ground arith, inl refl)

  recover_throws :
      (ran : Ran) (f : Fault E)
      → (rescue recovery ran).0 ≡ threw f
      → (e : E) × (f ≡ step_fault e)
        × ((ran.0 ≡ threw (step_fault e)) ⊎ (ran.0 ≡ threw (already_terminal e)))
  recover_throws (returned a, w) f h = absurd (cc)
  recover_throws (threw cause, w) f h =
      let (e, own, from) = abandoned_throws cause f w h in
      (e, own, elim from [ inl c ↦ inl (ap threw c) | inr c ↦ inr (ap threw c) ])

  -- What escapes a task's run is the orchestration's own fault, unwrapped, and never a fault of the
  -- recovery that was tried in between.
  pub run_handle_task_throws :
      (w : W) (f : Fault E)
      → (run_handle_task agent deps w).0 ≡ threw f
      → (e : E) × (f ≡ step_fault e)
        × (((orchestrate agent deps w).0 ≡ threw (step_fault e))
            ⊎ ((orchestrate agent deps w).0 ≡ threw (already_terminal e)))
  unfolding run_handle_task
  run_handle_task_throws w f h = recover_throws (orchestrate agent deps w) f h

module _ {W E : Type 0} (o : DeliverTerminalOptions W E) (task : TerminalTask) where
  swept :
      (r : Outcome E (Unit {0}) × W)
      → (k : Step W (Fault E) (Unit {0}))
      → after (λ _. k) (marking step_fault (rescue (λ _. pure tt) r).0, (rescue (λ _. pure tt) r).1)
        ≡ k r.1
  swept (returned a, w) k = refl
  swept (threw e, w) k = refl

  -- After a write that applied the callback is posted, whatever became of the sweep; a callback that
  -- fails is reported as a Task that is terminal already.
  pub deliver_terminal_task-posts :
      (w w₁ : W)
      → o.save_task task w ≡ (returned true, w₁)
      → let posted = o.notify task (o.sweep w₁).1 in
        deliver_terminal_task o task w ≡ (marking already_terminal posted.0, posted.1)
  unfolding deliver_terminal_task after_save
  deliver_terminal_task-posts w w₁ h =
      ap (λ r. after (after_save o task) (marking step_fault r.0, r.1)) h
      ∙ swept (o.sweep w₁) (rethrow already_terminal (o.notify task))

  -- How a delivery ended, by what became of its write and of its callback.
  abbrev pub IsExplained : Outcome E Bool × W → Outcome (Fault E) (Unit {0}) → Type 0
  IsExplained (saved, w) (returned _) =
      (saved ≡ returned false)
      ⊎ ((saved ≡ returned true) × ((o.notify task (o.sweep w).1).0 ≡ returned tt))
  IsExplained (saved, w) (threw (already_terminal e)) =
      (saved ≡ returned true) × ((o.notify task (o.sweep w).1).0 ≡ threw e)
  IsExplained (saved, w) (threw (step_fault e)) = saved ≡ threw e

  posted-IsExplained :
      (w : W) (posted : Outcome E (Unit {0}))
      → (o.notify task (o.sweep w).1).0 ≡ posted
      → IsExplained (returned true, w) (marking already_terminal posted)
  posted-IsExplained w (returned a) h = inr (refl, h)
  posted-IsExplained w (threw e) h = (refl, h)

  saved-IsExplained :
      (r : Outcome E Bool × W)
      → IsExplained r (after (after_save o task) (marking step_fault r.0, r.1)).0
  unfolding after_save
  saved-IsExplained (threw e, w) = refl
  saved-IsExplained (returned false, w) = inl refl
  saved-IsExplained (returned true, w) =
      subst (λ q. IsExplained (returned true, w) q.0)
        (sym (swept (o.sweep w) (rethrow already_terminal (o.notify task))))
        (posted-IsExplained w (o.notify task (o.sweep w).1).0 refl)

  -- Every end of a delivery is explained by its write and its callback alone. It returns if the write was
  -- refused, or was applied and the callback went out; it throws a fault of the callback, marked as
  -- coming after a Task that is terminal, only where the write was applied; any other fault is the
  -- write's. A fault of the sweep is never thrown.
  pub deliver_terminal_task-IsExplained :
      (w : W) → IsExplained (o.save_task task w) (deliver_terminal_task o task w).0
  unfolding deliver_terminal_task
  deliver_terminal_task-IsExplained w = saved-IsExplained (o.save_task task w)
