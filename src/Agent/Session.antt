-- ===== src/Agent/Session.antt =====
-- src/agent/session.ts: the Session that a round drives, and its exactly-once append. The store is
-- the Agents SDK's, and enters with the behaviour that src/agent/history.ts documents: an id that
-- exists is not written again. Each of its calls may throw. `rows` stands for what its table holds, and
-- no operation reads it: a read that returns tells what is there.
use looping_core.Base.{
  String, ◌≡◌, refl, ◌≢◌, inl, inr, List, Option, none, some, Option-cases, Outcome, returned,
  threw,
}
use looping_core.Agent.History.{SessionMessage, session_text}

pub record SessionStore : Type 1 where
  pub State : Type 0
  pub Fault : Type 0
  pub append_message : SessionMessage → State → Outcome Fault (Unit {0}) × State
  pub get_message : String → State → Outcome Fault (Option SessionMessage)
  pub get_history : State → Outcome Fault (List SessionMessage)
  pub rows : String → State → Option SessionMessage
  pub get_rows :
      (k : String) (s : State) (o : Option SessionMessage)
      → get_message k s ≡ returned o
      → o ≡ rows k s
  pub append_new :
      (m : SessionMessage) (s : State)
      → rows m.id s ≡ none
      → (append_message m s).0 ≡ returned tt
      → rows m.id (append_message m s).1 ≡ some m
  pub append_existing :
      (m old : SessionMessage) (s : State) → rows m.id s ≡ some old → (append_message m s).1 ≡ s
  pub append_other :
      (m : SessionMessage) (k : String) (s : State)
      → k ≢ m.id
      → rows k (append_message m s).1 ≡ rows k s

module _ (session : SessionStore) where
  open session use {
    State, Fault, append_message, get_message, rows, get_rows, append_new, append_existing,
  }

  stored_text : SessionMessage → Option SessionMessage → String
  stored_text m none = session_text m
  stored_text m (some stored) = session_text stored

  echo : SessionMessage → Outcome Fault (Option SessionMessage) → Outcome Fault String
  unfolding stored_text
  echo m (returned o) = returned (stored_text m o)
  echo m (threw f) = threw f

  read_back : SessionMessage → Outcome Fault (Unit {0}) × State → Outcome Fault String × State
  unfolding echo
  read_back m (returned _, s) = (echo m (get_message m.id s), s)
  read_back m (threw f, s) = (threw f, s)

  unfoldable pub append_once : SessionMessage → State → Outcome Fault String × State
  unfolding read_back
  append_once m s = read_back m (append_message m s)

  -- A fault that one of the calls of an exactly-once append throws.
  pub data AppendRaises (f : Fault) : Type 0 where
    by_append : (m : SessionMessage) (s : State) → (append_message m s).0 ≡ threw f → AppendRaises f
    by_get : (k : String) (s : State) → get_message k s ≡ threw f → AppendRaises f

  -- After an append the id is in the store.
  append-present :
      (m : SessionMessage) (s : State)
      → (append_message m s).0 ≡ returned tt
      → (old : SessionMessage) × (rows m.id (append_message m s).1 ≡ some old)
  append-present m s ok = elim (Option-cases (rows m.id s)) [
    | inl e ↦ (m, append_new m s e ok)
    | inr (old, e) ↦ (old, rw (append_existing m old s e) e)
  ]

  echo_ends :
      (m : SessionMessage) (s : State) (o : Outcome Fault (Option SessionMessage)) (t : String)
      → get_message m.id s ≡ o
      → ((old : SessionMessage) × (rows m.id s ≡ some old))
      → echo m o ≡ returned t
      → (old : SessionMessage) × (get_message m.id s ≡ returned (some old)) × (session_text old ≡ t)
  unfolding echo stored_text
  echo_ends m s (returned none) t e (old, h) r = absurd (let g = get_rows m.id s none e in cc)
  echo_ends m s (returned (some x)) t e (old, h) r = (x, e, cc)
  echo_ends m s (threw f) t e (old, h) r = absurd (cc)

  -- The text that an append answers with is the text in the store.
  pub append_once-stored :
      (m : SessionMessage) (s : State) (t : String)
      → (append_once m s).0 ≡ returned t
      → (old : SessionMessage) × (get_message m.id (append_once m s).1 ≡ returned (some old))
        × (session_text old ≡ t)
  unfolding append_once read_back
  append_once-stored m s t h = from (append_message m s).0 refl h
    where
      from :
          (o : Outcome Fault (Unit {0}))
          → (append_message m s).0 ≡ o
          → (read_back m (o, (append_message m s).1)).0 ≡ returned t
          → (old : SessionMessage) × (get_message m.id (read_back m (append_message m s)).1
              ≡ returned (some old))
            × (session_text old ≡ t)
      from (threw f) e r = absurd (cc)
      from (returned done) e r =
          rw (read_back, e)
            (echo_ends m (append_message m s).1 (get_message m.id (append_message m s).1) t refl
              (append-present m s e) r)

  -- An append throws only what the Session threw.
  pub append_once-raises :
      (m : SessionMessage) (s : State) (f : Fault) → (append_once m s).0 ≡ threw f → AppendRaises f
  unfolding append_once read_back
  append_once-raises m s f h = from (append_message m s).0 refl h
    where
      from :
          (o : Outcome Fault (Unit {0}))
          → (append_message m s).0 ≡ o
          → (read_back m (o, (append_message m s).1)).0 ≡ threw f
          → AppendRaises f
      from (threw g) e r = by_append m s (cc)
      from (returned done) e r = echoed (get_message m.id (append_message m s).1) refl r
        where
          echoed :
              (o : Outcome Fault (Option SessionMessage))
              → get_message m.id (append_message m s).1 ≡ o
              → echo m o ≡ threw f
              → AppendRaises f
          echoed (threw g) e r = by_get m.id (append_message m s).1 (cc)
          echoed (returned o) e r = absurd (cc)
