-- ===== src/A2a/Deliver.antt =====
-- src/a2a/deliver.ts: persist a turn's terminal Task, then notify the gatekeeper; and the recovery of
-- a turn whose orchestration threw. The guarded write, the sweep and the signed callback are steps
-- against the agent's Durable Object and the network, and enter as operations.
use looping_core.Base.{String, Bool, true, false, Outcome, returned, threw}
use looping_core.Base.Step.{Step, ◌>>=◌, ◌>>◌, pure, throw, catch}

-- The Task that a turn ends with (src/a2a/notify.ts builds it from these texts).
pub data TerminalTask : Type 0 where
  completed_task failed_task : String → TerminalTask

-- What a delivery throws: a step's own fault, or `TaskAlreadyTerminalError` with its cause.
pub data Fault (E : Type 0) : Type 0 where
  step_fault : E → Fault E
  already_terminal : E → Fault E

pub record DeliverTerminalOptions (W E : Type 0) : Type 0 where
  pub save_task : TerminalTask → Step W E Bool
  pub sweep : Step W E (Unit {0})
  pub notify : TerminalTask → Step W E (Unit {0})

-- A step's fault, as it is or marked.
abbrev pub marking : {E A : Type 0} → (E → Fault E) → Outcome E A → Outcome (Fault E) A
marking f (returned a) = returned a
marking f (threw e) = threw (f e)

module _ {W E : Type 0} where
  abbrev pub rethrow : {A : Type 0} → (E → Fault E) → Step W E A → Step W (Fault E) A
  rethrow f m w = let (o, w') = m w in (marking f o, w')

  abbrev pub durable : {A : Type 0} → Step W E A → Step W (Fault E) A
  durable = rethrow step_fault

  -- The sweep's failure does not block the callback; the callback's is marked.
  unfoldable pub after_save :
      DeliverTerminalOptions W E → TerminalTask → Bool → Step W (Fault E) (Unit {0})
  after_save o task false = pure tt
  after_save o task true = do
    durable (catch o.sweep (λ _. pure tt))
    rethrow already_terminal (o.notify task)

  unfoldable pub deliver_terminal_task :
      DeliverTerminalOptions W E → TerminalTask → Step W (Fault E) (Unit {0})
  unfolding after_save
  deliver_terminal_task o task = do saved ← durable (o.save_task task); after_save o task saved

  unfoldable pub deliver_abandoned_task :
      DeliverTerminalOptions W E → String → Fault E → Step W (Fault E) (Unit {0})
  unfolding deliver_terminal_task
  deliver_abandoned_task o text (already_terminal e) = throw (step_fault e)
  deliver_abandoned_task o text (step_fault e) =
      catch (deliver_terminal_task o (failed_task text)) (λ _. throw (step_fault e))
