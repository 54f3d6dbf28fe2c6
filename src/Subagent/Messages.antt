-- ===== src/Subagent/Messages.antt =====
-- src/subagent/run.ts: the rolling conversation of a run, `windowMessages` and `elideToolOutputs`. The
-- message types are the AI SDK's; an assistant's content and a JSON value are opaque.
use Prim.Native.Char.{code}
use looping_core.Base.{
  ℕ, zero, suc, ◌-◌, String, Bool, true, false, Option, none, some, List, [], ◌∷◌, length, drop,
  get_elem?, any, map, ltb, leb, ◌==◌, str_eq, if◌then◌else◌,
}

pub data ToolOutput (Json : Type 0) : Type 0 where
  text error_text : String → ToolOutput Json
  json error_json content : Json → ToolOutput Json
  execution_denied : Option String → ToolOutput Json

pub record ToolResult (Json : Type 0) : Type 0 where
  pub call_id : String
  pub tool_name : String
  pub output : ToolOutput Json

pub data ToolPart (Json : Type 0) : Type 0 where
  tool_result : ToolResult Json → ToolPart Json
  approval_response : Json → ToolPart Json

pub data Message (Json : Type 0) : Type 0 where
  system user : String → Message Json
  assistant : Json → Message Json
  tool : List (ToolPart Json) → Message Json

-- `String.prototype.length`: a character beyond the first plane counts as two code units.
unfoldable pub text_length : String → ℕ
text_length String.[] = 0
text_length (String.◌∷◌ c s) =
    if ltb (code c) 65536 then suc (text_length s) else suc (suc (text_length s))

-- The width of the detail window as a JavaScript number: no number, one below zero, one whose whole
-- part is given, or one without a bound.
pub data WindowWidth : Type 0 where
  not_a_number below_zero unbounded : WindowWidth
  whole : ℕ → WindowWidth

unfoldable pub elided_tool_output : String
elided_tool_output = "[output from an earlier turn, trimmed to save context]"

unfoldable pub min_elidable_output : ℕ
min_elidable_output = 200

abbrev pub is_at : Option ℕ → ℕ → Bool
is_at none i = false
is_at (some j) i = j == i

abbrev pub or_here : Option ℕ → Bool → ℕ → Option ℕ
or_here (some j) here i = some j
or_here none here i = if here then some i else none

unfoldable pub keep_width : WindowWidth → Option ℕ
keep_width not_a_number = some 0
keep_width below_zero = some 0
keep_width unbounded = none
keep_width (whole n) = some n

-- Whether a size is below the least worth a stub; where there is none it counts as infinite.
unfoldable pub is_below : Option ℕ → Bool
unfolding min_elidable_output
is_below none = false
is_below (some n) = ltb n min_elidable_output

module _ {Json : Type 0} where
  abbrev pub is_assistant : Message Json → Bool
  is_assistant (system t) = false
  is_assistant (user t) = false
  is_assistant (assistant c) = true
  is_assistant (tool ps) = false

  -- The positions of the assistant messages of a list whose first is at `i`.
  unfoldable pub assistant_indices : ℕ → List (Message Json) → List ℕ
  assistant_indices i [] = []
  assistant_indices i (m ∷ ms) =
      let later = assistant_indices (suc i) ms in if is_assistant m then i ∷ later else later

  -- `slice(start)`, which is the whole list where `start` is `undefined`.
  unfoldable pub slice_from : Option ℕ → List (Message Json) → List (Message Json)
  slice_from none ms = ms
  slice_from (some start) ms = drop start ms

  unfoldable pub window_messages : List (Message Json) → ℕ → List (Message Json)
  unfolding assistant_indices slice_from
  window_messages [] window = []
  window_messages (seed ∷ rest) window =
      let turns = assistant_indices 1 rest in
      if leb (length turns) window
      then seed ∷ rest
      else seed ∷ slice_from (get_elem? turns (length turns - window)) (seed ∷ rest)

  abbrev pub is_result_of : String → ToolPart Json → Bool
  is_result_of name (tool_result r) = str_eq name r.tool_name
  is_result_of name (approval_response a) = false

  abbrev pub has_result_of : String → Message Json → Bool
  has_result_of name (system t) = false
  has_result_of name (user t) = false
  has_result_of name (assistant c) = false
  has_result_of name (tool ps) = any (is_result_of name) ps

  -- `newestPerTool.get(name)`: the last message that holds a result of the tool.
  unfoldable pub newest_per_tool : ℕ → List (Message Json) → String → Option ℕ
  newest_per_tool i [] name = none
  newest_per_tool i (m ∷ ms) name =
      or_here (newest_per_tool (suc i) ms name) (has_result_of name m) i

  -- An `undefined` cutoff is below no position, as one at the end is.
  unfoldable pub cutoff_at : Option ℕ → List (Message Json) → ℕ
  cutoff_at none ms = length ms
  cutoff_at (some i) ms = i

  unfoldable pub detail_cutoff : List (Message Json) → Option ℕ → ℕ
  unfolding assistant_indices cutoff_at
  detail_cutoff ms none = 0
  detail_cutoff ms (some zero) = length ms
  detail_cutoff ms (some (suc k)) =
      let turns = assistant_indices 0 ms in
      if leb (length turns) (suc k)
      then 0
      else cutoff_at (get_elem? turns (length turns - suc k)) ms

  -- `json_size` is the length of `JSON.stringify`, or nothing where that throws.
  module _ (json_size : Json → Option ℕ) where
    -- Whether an output stays, of a result that is not its tool's newest.
    unfoldable pub is_spared : ToolOutput Json → Bool
    unfolding is_below text_length
    is_spared (text t) = is_below (some (text_length t))
    is_spared (error_text t) = true
    is_spared (json v) = is_below (json_size v)
    is_spared (error_json v) = true
    is_spared (content v) = is_below (json_size v)
    is_spared (execution_denied reason) = true

    unfoldable pub elide_part : (String → Option ℕ) → ℕ → ToolPart Json → ToolPart Json
    unfolding is_spared elided_tool_output
    elide_part newest i (approval_response a) = approval_response a
    elide_part newest i (tool_result r) =
        if is_at (newest r.tool_name) i
        then tool_result r
        else if is_spared r.output
        then tool_result r
        else tool_result (record {
          call_id = r.call_id;
          tool_name = r.tool_name;
          output = text elided_tool_output;
        })

    unfoldable pub elide_message : ℕ → (String → Option ℕ) → ℕ → Message Json → Message Json
    unfolding elide_part
    elide_message cutoff newest i (system t) = system t
    elide_message cutoff newest i (user t) = user t
    elide_message cutoff newest i (assistant c) = assistant c
    elide_message cutoff newest i (tool ps) =
        if leb cutoff i then tool ps else tool (map (elide_part newest i) ps)

    unfoldable pub elide_from :
        ℕ → (String → Option ℕ) → ℕ → List (Message Json) → List (Message Json)
    unfolding elide_message
    elide_from cutoff newest i [] = []
    elide_from cutoff newest i (m ∷ ms) =
        elide_message cutoff newest i m ∷ elide_from cutoff newest (suc i) ms

    unfoldable pub elide_tool_outputs : List (Message Json) → WindowWidth → List (Message Json)
    unfolding elide_from detail_cutoff keep_width newest_per_tool
    elide_tool_outputs ms keep_recent =
        let cutoff = detail_cutoff ms (keep_width keep_recent) in
        if cutoff == 0 then ms else elide_from cutoff (newest_per_tool 0 ms) 0 ms
