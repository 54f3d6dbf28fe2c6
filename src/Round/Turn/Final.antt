-- ===== src/Round/Turn/Final.antt =====
-- A final round of src/round/turn.ts with the control tools of src/agent/control.ts: it may answer or
-- fail, and cannot hand out work.
use looping_core.Base.{
  not, trim, ℕ, zero, suc, ◌+◌, String, List, [], ◌∷◌, Option, some, none, ◌≡◌, refl, sym, ap, ◌∙◌,
  subst, map, find_first, Outcome, returned, threw, inl, inr, Bool-cases, Option-cases, ltb, ◌&&◌,
  any,
}
use looping_core.Agent.Budget.{TurnBudget}
use looping_core.Agent.Control.{ControlTool, TurnDecision, reply, delegate}
use looping_core.Agent.ControlTools.{ControlEnv, control_tools, final_reply_tool, reply_of}
use looping_core.Round.Render.{ModelMessage, ReferenceCatalogEntry}
use looping_core.Round.Turn.Env.{
  final_round, Slot, primary, fallback, RoundEnv, RunTurnArgs, RunTurnOutcome, replied, delegated,
  TurnFault, GenerateResult,
}
use looping_core.Round.Turn.Ending.{
  Attempt, decided, failed, read_ending, called, inputs_of, sort_by_precedence, judge,
  parse_subject,
}
use looping_core.Round.Turn.Join.{is_completed}
use looping_core.Round.Turn.Ladder.{
  hand_out, is_final, verdict, attempt, retry, react, run_slot, fall_back, run_slots, settle, climb,
  close, RoundView, read_view, conduct, run_turn, Ladder, SlotEnd, chose, blocked, gave_up, publish,
  join_or, give_up, deterministic_join,
}

-- A decision to answer.
abbrev pub IsReply : TurnDecision → Type 0
IsReply (reply t) = Unit
IsReply (delegate t ds) = ⊥

abbrev pub NoWork : {Input E : Type 0} → Attempt Input E → Type 0
NoWork (decided d) = IsReply d
NoWork (failed e rejected) = Unit

module _ {Input E : Type 0} where
  -- A tool whose reading, where it succeeds, is an answer.
  abbrev pub OnlyReplies : ControlTool Input E → Type 0
  OnlyReplies t = (x : Input) (d : TurnDecision) → t.parse x ≡ returned d → IsReply d

  parse_subject-NoWork :
      (t : ControlTool Input E) (x : Input) → OnlyReplies t → NoWork (parse_subject t x)
  unfolding parse_subject
  parse_subject-NoWork t x h = from (t.parse x) refl
    where
      from : (o : Outcome E TurnDecision) → t.parse x ≡ o → NoWork (parse_subject t x)
      from (returned d) e = rw (NoWork, parse_subject, e) (h x d e)
      from (threw e) e' = rw (NoWork, parse_subject, e') tt

  judge-NoWork :
      (t : ControlTool Input E) (x : Input) (xs : List Input)
      → OnlyReplies t
      → NoWork (judge t x xs)
  unfolding judge
  judge-NoWork t x xs h = from (t.select (x ∷ xs)) refl
    where
      from : (o : Outcome E Input) → t.select (x ∷ xs) ≡ o → NoWork (judge t x xs)
      from (returned y) e = rw (NoWork, judge, e) (parse_subject-NoWork t y h)
      from (threw f) e = rw (NoWork, judge, e) tt

  read_ending-NoWork :
      (no_decision : String → ℕ → E) (t : ControlTool Input E) (r : GenerateResult Input)
      → OnlyReplies t
      → NoWork (read_ending no_decision (t ∷ []) r)
  unfolding read_ending called sort_by_precedence
  read_ending-NoWork no_decision t r h = from (inputs_of t.name r.tool_calls) refl
    where
      from :
          (xs : List Input)
          → inputs_of t.name r.tool_calls ≡ xs
          → NoWork (read_ending no_decision (t ∷ []) r)
      from [] e = rw (NoWork, read_ending, called, e) tt
      from (x ∷ xs) e = rw (NoWork, read_ending, called, e) (judge-NoWork t x xs h)

  reply_tool-OnlyReplies : (env : ControlEnv Input E) → OnlyReplies (final_reply_tool env)
  unfolding final_reply_tool reply_of
  reply_tool-OnlyReplies env x d h = from (env.read_reply x) h
    where
      from : (o : Outcome String String) → reply_of env o ≡ returned d → IsReply d
      from (returned text) h = let e : reply (trim text) ≡ d = cc in subst IsReply e tt
      from (threw issues) h = absurd (cc)

module _ (env : RoundEnv) where
  open env use {Input, E, Kind, session}

  abbrev pub NoHandOver : SlotEnd env → Type 0
  NoHandOver (chose d) = IsReply d
  NoHandOver (blocked kind e) = Unit
  NoHandOver gave_up = Unit

  -- Any end of a round but a delegation.
  abbrev pub IsAnswered : Outcome (TurnFault E session.Fault) (RunTurnOutcome E Kind) → Type 0
  IsAnswered (returned (delegated text drafts)) = ⊥
  IsAnswered _ = Unit

  retry-NoHandOver :
      (args : RunTurnArgs) (slot : Slot) (repair : ℕ) (messages : List (ModelMessage Input E))
      (again : List (ModelMessage Input E) → Ladder env → SlotEnd env × Ladder env)
      (st : Ladder env) (e : E) (rejected : Option (String × Input))
      → ((ms : List (ModelMessage Input E)) (st' : Ladder env) → NoHandOver (again ms st').0)
      → NoHandOver (retry env args slot repair messages again st e rejected).0
  unfolding retry
  retry-NoHandOver args slot repair messages again st e none k = tt
  retry-NoHandOver args slot repair messages again st e (some (name, input)) k =
      elim (Bool-cases (ltb repair 3 && ltb st.budget.spent st.budget.allowance)) [
        | inl more ↦ rw more (k _ _)
        | inr done ↦ rw done tt
      ]

  react-NoHandOver :
      (args : RunTurnArgs) (slot : Slot) (repair : ℕ) (messages : List (ModelMessage Input E))
      (again : List (ModelMessage Input E) → Ladder env → SlotEnd env × Ladder env)
      (tried : Attempt Input E × Ladder env)
      → NoWork tried.0
      → ((ms : List (ModelMessage Input E)) (st' : Ladder env) → NoHandOver (again ms st').0)
      → NoHandOver (react env args slot repair messages again tried).0
  unfolding react
  react-NoHandOver args slot repair messages again (decided d, st) n k = n
  react-NoHandOver args slot repair messages again (failed e rejected, st) n k =
      elim (Option-cases (env.non_recoverable_kind e)) [
        | inl recoverable ↦
            rw (recoverable, react)
              (retry-NoHandOver args slot repair messages again st e rejected k)
        | inr (kind, e') ↦ rw (e', react) tt
      ]

  verdict-NoWork :
      (t : ControlTool Input E) (o : Outcome E (GenerateResult Input))
      → OnlyReplies t
      → NoWork (verdict env (t ∷ []) o)
  unfolding verdict
  verdict-NoWork t (returned r) h = read_ending-NoWork env.no_decision t r h
  verdict-NoWork t (threw e) h = tt

  attempt-NoWork :
      (args : RunTurnArgs) (t : ControlTool Input E) (slot : Slot) (i : String)
      (messages : List (ModelMessage Input E)) (st : Ladder env)
      → OnlyReplies t
      → NoWork (attempt env args (t ∷ []) slot i messages st).0
  unfolding attempt
  attempt-NoWork args t slot i messages st h = verdict-NoWork t _ h

  run_slot-NoHandOver :
      (args : RunTurnArgs) (t : ControlTool Input E) (slot : Slot) (i : String) (left repair : ℕ)
      (messages : List (ModelMessage Input E)) (st : Ladder env)
      → OnlyReplies t
      → NoHandOver (run_slot env args (t ∷ []) slot i left repair messages st).0
  unfolding run_slot
  run_slot-NoHandOver args t slot i zero repair messages st h = tt
  run_slot-NoHandOver args t slot i (suc left) repair messages st h =
      react-NoHandOver args slot repair messages
        (λ ms st'. run_slot env args (t ∷ []) slot i left (repair + 1) ms st')
        (attempt env args (t ∷ []) slot i messages st) (attempt-NoWork args t slot i messages st h)
        (λ ms st'. run_slot-NoHandOver args t slot i left (repair + 1) ms st' h)

  fall_back-NoHandOver :
      (next : Ladder env → SlotEnd env × Ladder env) (first : SlotEnd env × Ladder env)
      → NoHandOver first.0
      → ((st : Ladder env) → NoHandOver (next st).0)
      → NoHandOver (fall_back env next first).0
  unfolding fall_back
  fall_back-NoHandOver next (chose d, st) n k = n
  fall_back-NoHandOver next (blocked kind e, st) n k = tt
  fall_back-NoHandOver next (gave_up, st) n k = k st

  run_slots-NoHandOver :
      (args : RunTurnArgs) (t : ControlTool Input E) (i : String)
      (messages : List (ModelMessage Input E)) (st : Ladder env)
      → OnlyReplies t
      → NoHandOver (run_slots env args (t ∷ []) i messages st).0
  unfolding run_slots
  run_slots-NoHandOver args t i messages st h =
      fall_back-NoHandOver (λ st'. run_slot env args (t ∷ []) fallback i 4 0 messages st')
        (run_slot env args (t ∷ []) primary i 4 0 messages st)
        (run_slot-NoHandOver args t primary i 4 0 messages st h)
        (λ st'. run_slot-NoHandOver args t fallback i 4 0 messages st' h)

  handed_reply :
      (args : RunTurnArgs) (tools : ControlEnv Input E) (catalog : List ReferenceCatalogEntry)
      → env.control_tools ≡ control_tools tools
      → args.mode ≡ final_round
      → hand_out env args catalog ≡ final_reply_tool tools ∷ []
  unfolding hand_out control_tools is_final
  handed_reply args tools catalog same last =
      ap (λ f. f catalog (not (is_final args.mode))) same
      ∙ ap (λ m. control_tools tools catalog (not (is_final m))) last

  climbs_to_reply :
      (args : RunTurnArgs) (tools : ControlEnv Input E) (catalog : List ReferenceCatalogEntry)
      (i : String) (messages : List (ModelMessage Input E)) (st : Ladder env)
      → env.control_tools ≡ control_tools tools
      → args.mode ≡ final_round
      → NoHandOver (run_slots env args (hand_out env args catalog) i messages st).0
  climbs_to_reply args tools catalog i messages st same last =
      subst (λ c. NoHandOver (run_slots env args c i messages st).0)
        (sym (handed_reply args tools catalog same last))
        (run_slots-NoHandOver args (final_reply_tool tools) i messages st
          (reply_tool-OnlyReplies tools))

  climb-NoHandOver :
      (args : RunTurnArgs) (tools : ControlEnv Input E) (b : TurnBudget) (view : RoundView env)
      (w : session.State)
      → env.control_tools ≡ control_tools tools
      → args.mode ≡ final_round
      → NoHandOver (climb env args b view w).0
  unfolding climb
  climb-NoHandOver args tools b view w same last = climbs_to_reply args tools _ _ _ _ same last

  close-IsAnswered :
      (told : String → RunTurnOutcome E Kind) (b : TurnBudget)
      (said : Outcome session.Fault String × session.State)
      → ((t : String) → IsAnswered (returned (told t)))
      → IsAnswered (close env told b said).outcome
  unfolding close
  close-IsAnswered told b (returned t, w) k = k t
  close-IsAnswered told b (threw f, w) k = tt

  join_or-IsAnswered :
      (args : RunTurnArgs) (st : Ladder env) (o : RunTurnOutcome E Kind)
      → IsAnswered (returned o)
      → IsAnswered (join_or env args st o).outcome
  unfolding join_or deterministic_join
  join_or-IsAnswered args st o n = elim (Bool-cases (any is_completed args.branches)) [
    | inl some_done ↦
        rw (join_or, deterministic_join, some_done) (close-IsAnswered replied st.budget _ (λ t. tt))
    | inr none_done ↦ rw (IsAnswered, join_or, deterministic_join, none_done) n
  ]

  settle-IsAnswered :
      (args : RunTurnArgs) (end : SlotEnd env × Ladder env)
      → NoHandOver end.0
      → IsAnswered (settle env args end).outcome
  unfolding settle publish give_up
  settle-IsAnswered args (chose (reply t), st) n = close-IsAnswered replied st.budget _ (λ t'. tt)
  settle-IsAnswered args (chose (delegate t ds), st) n = absurd n
  settle-IsAnswered args (blocked kind e, st) n = join_or-IsAnswered args st _ tt
  settle-IsAnswered args (gave_up, st) n =
      elim (Option-cases (find_first env.is_transient (map (λ d. d.error) st.diagnostics))) [
        | inl calm ↦ rw (IsAnswered, give_up, calm) (join_or-IsAnswered args st _ tt)
        | inr (e, found) ↦ rw (IsAnswered, give_up, found) tt
      ]

  conduct-IsAnswered :
      (tools : ControlEnv Input E) (args : RunTurnArgs) (b : TurnBudget)
      (r : Outcome session.Fault (RoundView env) × session.State)
      → env.control_tools ≡ control_tools tools
      → args.mode ≡ final_round
      → IsAnswered (conduct env args b r).outcome
  unfolding conduct
  conduct-IsAnswered tools args b (returned view, w) same last =
      settle-IsAnswered args (climb env args b view w)
        (climb-NoHandOver args tools b view w same last)
  conduct-IsAnswered tools args b (threw f, w) same last = tt

  -- With the control tools of the source, a round in the final mode never delegates, whatever its
  -- models call.
  pub run_turn-IsAnswered :
      (tools : ControlEnv Input E) (args : RunTurnArgs) (b : TurnBudget) (w : session.State)
      → env.control_tools ≡ control_tools tools
      → args.mode ≡ final_round
      → IsAnswered (run_turn env args b w).outcome
  unfolding run_turn
  run_turn-IsAnswered tools args b w same last =
      conduct-IsAnswered tools args b (read_view env args w) same last
