-- ===== src/Agent/Examples.antt =====
-- A Session in memory, newest message first, and the runs of src/agent/session.ts on it.
use looping_core.Base.{
  String, List, [], ◌∷◌, Option, none, some, str_eq, str_eq_iff, if◌then◌else◌, ◌≡◌, ◌≢◌, refl, sym,
  inl, inr, Bool-cases, Outcome, returned,
}
use looping_core.Agent.History.{Role, SessionMessage, deterministic_session_message}
use looping_core.Agent.Session.{SessionStore}

unfoldable pub stored_as : String → List SessionMessage → Option SessionMessage
stored_as k [] = none
stored_as k (m ∷ ms) = if str_eq m.id k then some m else stored_as k ms

unfoldable pub remember_new :
    SessionMessage → List SessionMessage → Option SessionMessage → List SessionMessage
remember_new m s none = m ∷ s
remember_new m s (some old) = s

pub stored_as-same :
    (m : SessionMessage) (s : List SessionMessage) → stored_as m.id (m ∷ s) ≡ some m
unfolding stored_as
stored_as-same m s = rw ((str_eq_iff m.id m.id).1 refl) refl

stored_as-other :
    (m : SessionMessage) (k : String) (s : List SessionMessage)
    → k ≢ m.id
    → stored_as k (m ∷ s) ≡ stored_as k s
unfolding stored_as
stored_as-other m k s h = elim (Bool-cases (str_eq m.id k)) [
  | inl same ↦ absurd (h (sym ((str_eq_iff m.id k).0 same)))
  | inr other ↦ rw other
]

pub remember_new-other :
    (m : SessionMessage) (k : String) (s : List SessionMessage) (o : Option SessionMessage)
    → k ≢ m.id
    → stored_as k (remember_new m s o) ≡ stored_as k s
unfolding remember_new
remember_new-other m k s none h = stored_as-other m k s h
remember_new-other m k s (some old) h = refl

abbrev pub store : SessionMessage → List SessionMessage → List SessionMessage
store m s = remember_new m s (stored_as m.id s)

pub store-new :
    (m : SessionMessage) (s : List SessionMessage)
    → stored_as m.id s ≡ none
    → stored_as m.id (store m s) ≡ some m
unfolding remember_new
store-new m s h = rw h (stored_as-same m s)

pub store-existing :
    (m old : SessionMessage) (s : List SessionMessage) → stored_as m.id s ≡ some old → store m s ≡ s
unfolding remember_new
store-existing m old s h = rw h

pub read-rows :
    (k : String) (s : List SessionMessage) (o : Option SessionMessage)
    → (let read : Outcome String (Option SessionMessage) = returned (stored_as k s) in
        read ≡ returned o)
    → o ≡ stored_as k s
read-rows k s o h = cc

abbrev pub memory : SessionStore
memory = record {
  State = List SessionMessage;
  Fault = String;
  append_message = λ m s. (returned tt, store m s);
  get_message = λ k s. returned (stored_as k s);
  get_history = λ s. returned s;
  rows = stored_as;
  get_rows = read-rows;
  append_new = λ m s h ok. store-new m s h;
  append_existing = store-existing;
  append_other = λ m k s h. remember_new-other m k s (stored_as m.id s) h;
}

abbrev pub hello : SessionMessage
hello = deterministic_session_message "a" Role.user "hello"

abbrev bye : SessionMessage
bye = deterministic_session_message "a" Role.user "bye"
