-- ===== src/Proxy/DecisionLog.antt =====
-- proxy/decision.go: the ring buffer of decisions, and proxy/violation.go: the violation file.
-- A method that holds the mutex is one step. Fresh action ids, the clock, json.Marshal and writing
-- to the file are arguments. A time is a number; 0 is Go's zero time. An index out of range, a
-- panic in Go, is `none`.
pub mod Ring
mod Tests
use skillledger.Base.{
  ℕ, zero, suc, ◌+◌, ◌-◌, ◌%◌, Option, none, some, List, [], ◌∷◌, ◌++◌, ltb, leb, nat_beq,
  if◌then◌else◌, get_elem?, set, replicate, Text, text_eq,
}
use skillledger.Proxy.Scanner.{ActionType, Finding}

pub record DecisionEntry : Type 0 where
  pub action_id : Text
  pub timestamp : ℕ
  pub skill_id : Text
  pub direction : Text
  pub destination : Text
  pub method : Text
  pub decision : ActionType
  pub reason : Text
  pub protocol : Text
  pub trust_tier : Text
  pub findings : List Finding

-- DecisionEntry{}
abbrev pub zero_entry : DecisionEntry
zero_entry = record {
  action_id = [];
  timestamp = 0;
  skill_id = [];
  direction = [];
  destination = [];
  method = [];
  decision = ActionType.allow;
  reason = [];
  protocol = [];
  trust_tier = [];
  findings = [];
}

pub record DecisionLog : Type 0 where
  pub entries : List DecisionEntry
  pub size : ℕ
  pub head : ℕ
  pub count : ℕ
  pub file : Option Text  -- the contents of the JSONL file, if one is set

-- NewDecisionLog. A negative capacity counts as 0.
unfoldable pub new : ℕ → DecisionLog
new size =
    let capacity = if leb size 0 then 1000 else size in
    record {
      entries = replicate capacity zero_entry;
      size = capacity;
      head = 0;
      count = 0;
      file = none;
    }

-- SetFileWriter
unfoldable pub set_file_writer : Option Text → DecisionLog → DecisionLog
set_file_writer f d = record d { file = f }

-- What Record reads besides its argument.
pub record Outside : Type 0 where
  pub new_action_id : Text
  pub now : ℕ
  pub marshal : DecisionEntry → Option Text
  pub write : Text → Text → Text  -- the file's contents, and what is written

unfoldable pub stamp : Outside → DecisionEntry → DecisionEntry
stamp o e = record e {
  action_id = if text_eq e.action_id [] then o.new_action_id else e.action_id;
  timestamp = if nat_beq e.timestamp 0 then o.now else e.timestamp;
}

unfoldable pub append_line : Outside → DecisionEntry → Option Text → Option Text
append_line o e none = none
append_line o e (some text) = elim (o.marshal e) [
  | none ↦ some text
  | some line ↦ some (o.write text (line ++ 10 ∷ []))
]

-- Record
unfoldable pub add : Outside → DecisionEntry → DecisionLog → DecisionLog
unfolding stamp append_line
add o e d =
    let entry = stamp o e in
    record {
      entries = set d.entries d.head entry;
      size = d.size;
      head = (d.head + 1) % d.size;
      count = if ltb d.count d.size then d.count + 1 else d.count;
      file = append_line o entry d.file;
    }

-- (d.head - 1 - i + d.size) % d.size; with i < size nothing is cut off at 0
unfoldable pub index : DecisionLog → ℕ → ℕ
index d i = (d.head + d.size - 1 - i) % d.size

-- The loop of Lookup: `left` rounds from i on.
unfoldable pub lookup_from : DecisionLog → Text → ℕ → ℕ → Option (Option DecisionEntry)
unfolding index
lookup_from d id i zero = some none
lookup_from d id i (suc left) =
    let rest = lookup_from d id (suc i) left in
    elim (get_elem? d.entries (index d i)) [
      | none ↦ none
      | some e ↦ if text_eq e.action_id id then some (some e) else rest
    ]

-- Lookup
unfoldable pub lookup_entry : Text → DecisionLog → Option (Option DecisionEntry)
unfolding lookup_from
lookup_entry id d = lookup_from d id 0 d.count

-- The loop of Recent.
unfoldable pub recent_from : DecisionLog → ℕ → ℕ → Option (List DecisionEntry)
unfolding index
recent_from d i zero = some []
recent_from d i (suc left) = elim (get_elem? d.entries (index d i)) [
  | none ↦ none
  | some e ↦ elim (recent_from d (suc i) left) [ none ↦ none | some es ↦ some (e ∷ es) ]
]

-- Recent, for n ≥ 0.
unfoldable pub recent : ℕ → DecisionLog → Option (List DecisionEntry)
unfolding recent_from
recent n d = recent_from d 0 (if ltb d.count n then d.count else n)

-- A run of Record calls, the first one first.
unfoldable pub add_all : List (Outside × DecisionEntry) → DecisionLog → DecisionLog
add_all [] d = d
add_all ((o, e) ∷ es) d = add_all es (add o e d)

-- ViolationWriter.WriteFindings: the file after the call, or `none` where json.Marshal fails.
unfoldable pub write_findings :
    (DecisionEntry → Option Text) → (Text → Text → Text) → DecisionEntry → Text → Option Text
write_findings marshal write e file = elim e.findings [
  | [] ↦ some file
  | f ∷ fs ↦ elim (marshal e) [ none ↦ none | some line ↦ some (write file (line ++ 10 ∷ [])) ]
]
