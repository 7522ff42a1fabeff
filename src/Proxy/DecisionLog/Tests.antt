-- ===== src/Proxy/DecisionLog/Tests.antt =====
-- Runs of proxy/decision.go, and its theorems at concrete inputs.
use skillledger.Base.{
  ℕ, ◌+◌, ◌≡◌, refl, Option, none, some, List, [], ◌∷◌, ◌++◌, map, take, Text, codes, text_eq,
}
use skillledger.Proxy.DecisionLog.{
  DecisionEntry, zero_entry, new, Outside, add, add_all, recent, lookup_entry, set_file_writer,
  write_findings,
}
use skillledger.Proxy.DecisionLog.Ring.{recent-run, lookup_entry-run, capacity, history, find_id}

abbrev outside : ℕ → Outside
outside n = record {
  new_action_id = codes "act-" ++ n ∷ [];
  now = n + 1;
  marshal = λ e. some e.action_id;
  write = λ file line. file ++ line;
}

abbrev entry : Text → DecisionEntry
entry id = record zero_entry { action_id = id }

-- four entries in a log of three, so that the first is overwritten
abbrev four : List (Outside × DecisionEntry)
four =
    (outside 49, zero_entry)
    ∷ (outside 50, entry (codes "b"))
    ∷ (outside 51, entry (codes "c"))
    ∷ (outside 52, entry (codes "d"))
    ∷ []

abbrev ids : Option (List DecisionEntry) → List Text
ids none = []
ids (some es) = map (λ e. e.action_id) es

recent_three : ids (recent 9 (add_all four (new 3))) ≡ codes "d" ∷ codes "c" ∷ codes "b" ∷ []
unfolding recent add_all add new text_eq
recent_three = refl

generated_id : ids (recent 1 (add_all ((outside 49, zero_entry) ∷ []) (new 3))) ≡ codes "act-1" ∷ []
unfolding recent add_all add new text_eq
generated_id = refl

file_lines :
    (add (outside 50) (entry (codes "b")) (set_file_writer (some []) (new 3))).file
    ≡ some (codes "b" ++ 10 ∷ [])
unfolding add new set_file_writer text_eq
file_lines = refl

silent_without_findings :
    write_findings (λ e. some e.action_id) (λ file line. file ++ line) (entry (codes "b")) []
    ≡ some []
unfolding write_findings
silent_without_findings = refl

recent-run_example :
    recent 2 (add_all four (new 3)) ≡ some (take 2 (take (capacity 3) (history four [])))
recent-run_example = recent-run 3 2 four

lookup_entry-run_example :
    lookup_entry (codes "b") (add_all four (new 3))
    ≡ some (find_id (codes "b") (take (capacity 3) (history four [])))
lookup_entry-run_example = lookup_entry-run 3 (codes "b") four
