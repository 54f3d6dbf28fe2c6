-- ===== src/Subagent/Replay.antt =====
-- src/subagent/index.ts: a terminal result, once given, is given again.
use looping_core.Base.{
  String, true, Option, none, some, List, [], ◌∷◌, Outcome, returned, threw, str_eq, str_eq_iff,
  is_blank, ◌≡◌, refl, ap, ◌∙◌, subst, Bool-cases, inl, inr,
}
use looping_core.Contract.Recipe.{ResolvedRecipe, ValidatedRecipe, RecipeFault}
use looping_core.Subagent.Prompt.{Assignment}
use looping_core.Subagent.Env.{SubagentEnv, ChunkRunState, RecipeExecutionResult, done, not_done}
use looping_core.Subagent.Chunk.{ChunkEnd}
use looping_core.Subagent.Facet.{
  Row, Facet, SubagentRuntime, Call, save_run_state, cache_terminal, checkpointed, store_outcome,
  play, resume, check_params, begin_chunk, look_up, execute_chunk,
}

str_eq_refl : (s : String) → str_eq s s ≡ true
str_eq_refl s = (str_eq_iff s s).1 refl

module _ (env : SubagentEnv) where
  open env use {E, World, Json, ProgressEvent}

  -- After a call that returned, a terminal result is in the cache under the call's key, and without one
  -- the state of the run is saved under it and nothing is in the cache. A call that threw has put
  -- nothing in the cache.
  abbrev pub IsKept : String → Facet Json → Call env → Type 0
  IsKept key f (returned (done result events), (g, w)) =
      g.execution_cache ≡ some (record { fingerprint = key; value = result })
  IsKept key f (returned (not_done events), (g, w)) =
      (g.execution_cache ≡ f.execution_cache)
      × ((s : ChunkRunState Json) × (g.run_state ≡ some (record { fingerprint = key; value = s })))
  IsKept key f (threw e, (g, w)) = g.execution_cache ≡ f.execution_cache

  checkpointed-cache :
      (key : String) (o : List (ChunkRunState Json)) (f : Facet Json)
      → (checkpointed env key o f).execution_cache ≡ f.execution_cache
  unfolding checkpointed save_run_state
  checkpointed-cache key [] f = refl
  checkpointed-cache key (s ∷ older) f = refl

  store_outcome-IsKept :
      (key : String) (f : Facet Json) (e : ChunkEnd env) → IsKept key f (store_outcome env key f e)
  unfolding store_outcome cache_terminal save_run_state
  store_outcome-IsKept key f (threw e, c) = checkpointed-cache key c.checkpoints f
  store_outcome-IsKept key f (returned (done result events), c) = refl
  store_outcome-IsKept key f (returned (not_done events), c) = (refl, (c.state, refl))

  resume-IsKept :
      (rt : SubagentRuntime) (request : Assignment) (recipe : ValidatedRecipe) (key : String)
      (saved : Option (Row (ChunkRunState Json))) (f : Facet Json) (w : World)
      → IsKept key f (resume env rt request recipe key saved f w)
  unfolding resume play
  resume-IsKept rt request recipe key none f w = store_outcome-IsKept key f _
  resume-IsKept rt request recipe key (some row) f w =
      elim (Bool-cases (str_eq row.fingerprint key)) [
        | inl mine ↦ rw mine (store_outcome-IsKept key f _)
        | inr foreign ↦ rw foreign refl
      ]

  check_params-IsKept :
      (rt : SubagentRuntime) (request : Assignment) (recipe : ValidatedRecipe) (key : String)
      (o : Option String) (f : Facet Json) (w : World)
      → IsKept key f (check_params env rt request recipe key o f w)
  unfolding check_params cache_terminal
  check_params-IsKept rt request recipe key none f w =
      resume-IsKept rt request recipe key f.run_state f w
  check_params-IsKept rt request recipe key (some message) f w = refl

  begin_chunk-IsKept :
      (rt : SubagentRuntime) (request : Assignment) (recipe : ResolvedRecipe) (key : String)
      (o : Outcome RecipeFault ValidatedRecipe) (f : Facet Json) (w : World)
      → IsKept key f (begin_chunk env rt request recipe key o f w)
  unfolding begin_chunk cache_terminal
  begin_chunk-IsKept rt request recipe key (threw refusal) f w = refl
  begin_chunk-IsKept rt request recipe key (returned valid) f w =
      elim (Bool-cases (is_blank request.prompt)) [
        | inl blank ↦ rw blank refl
        | inr full ↦ rw full (check_params-IsKept rt request valid key _ f w)
      ]

  look_up-IsKept :
      (rt : SubagentRuntime) (request : Assignment) (recipe : ResolvedRecipe) (key : String)
      (o : Option (Row RecipeExecutionResult)) (f : Facet Json) (w : World)
      → f.execution_cache ≡ o
      → IsKept key f (look_up env rt request recipe key o f w)
  unfolding look_up
  look_up-IsKept rt request recipe key none f w h = begin_chunk-IsKept rt request recipe key _ f w
  look_up-IsKept rt request recipe key (some row) f w h =
      elim (Bool-cases (str_eq row.fingerprint key)) [
        | inl mine ↦
            let same = (str_eq_iff row.fingerprint key).0 mine in
            rw mine (h ∙ ap (λ k. some (record { fingerprint = k; value = row.value })) same)
        | inr foreign ↦ rw foreign refl
      ]

  pub execute_chunk-IsKept :
      (rt : SubagentRuntime) (request : Assignment) (recipe : ResolvedRecipe) (f : Facet Json)
      (w : World)
      → IsKept (rt.fingerprint request recipe) f (execute_chunk env rt request recipe f w)
  unfolding execute_chunk
  execute_chunk-IsKept rt request recipe f w =
      look_up-IsKept rt request recipe (rt.fingerprint request recipe) f.execution_cache f w refl

  -- Once a call has returned a terminal result, every later call with the same request returns that
  -- result, at whatever time and without changing anything: no model is called and no row is written.
  -- It reports no progress again.
  pub execute_chunk-replays :
      (rt : SubagentRuntime) (request : Assignment) (recipe : ResolvedRecipe) (f : Facet Json)
      (w : World) (result : RecipeExecutionResult) (events : List ProgressEvent) (g : Facet Json)
      (w' later : World)
      → execute_chunk env rt request recipe f w ≡ (returned (done result events), (g, w'))
      → execute_chunk env rt request recipe g later ≡ (returned (done result []), (g, later))
  unfolding execute_chunk look_up
  execute_chunk-replays rt request recipe f w result events g w' later h =
      let key = rt.fingerprint request recipe in
      let kept : g.execution_cache ≡ some (record { fingerprint = key; value = result }) =
        subst (IsKept key f) h (execute_chunk-IsKept rt request recipe f w) in
      rw (kept, look_up, str_eq_refl key) refl
