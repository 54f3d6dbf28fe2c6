-- ===== src/Subtasks/Types.antt =====
-- src/subtasks/types.ts: the records that cross between a round, its table rows and a child.
use looping_core.Base.{ℕ, String, List, Option}

pub data SubtaskStatus : Type 0 where
  pending running completed failed canceled : SubtaskStatus

pub SubtaskStatus-discrete : Discrete SubtaskStatus
SubtaskStatus-discrete = hlevel

pub data Speaker : Type 0 where
  user assistant : Speaker

-- A verbatim snapshot of one history message.
pub record SubtaskReference : Type 0 where
  pub role : Speaker
  pub text : String

-- `Record<string, string>`, in insertion order.
abbrev pub SubtaskParams : Type 0
SubtaskParams = List (String × String)

pub record SubtaskDraft : Type 0 where
  pub type : String
  pub prompt : String
  pub references : List SubtaskReference
  pub params : SubtaskParams

-- One branch's outcome, as a later round sees it. A result part is its text.
pub record CompositionBranch : Type 0 where
  pub subtask_id : ℕ
  pub round : ℕ
  pub ordinal : ℕ
  pub type : String
  pub prompt : String
  pub params : SubtaskParams
  pub status : SubtaskStatus
  pub result_parts : Option (List String)
  pub error : Option String
