-- ===== src/Proxy/Streamable/Same.antt =====
-- What proxy/mcp_streamable.go does with lists of tools, against proxy/mcp_stdio.go.
use skillledger.Base.{
  ℕ, suc, ◌≡◌, refl, ap, ◌∙◌, fun_ext, Bool, true, false, ◌&&◌, not, Option, none, some, List, [],
  ◌∷◌, map, arith, ltb, nat_beq, if◌then◌else◌, lt→ltb, nat_eq, length, Text, codes, text_eq_inst,
}
use skillledger.Proxy.DecisionLog.{DecisionEntry, Outside}
use skillledger.Proxy.PolicyConfig.{PolicyConfig}
use skillledger.Proxy.Pinning.{
  McpTool, PinChange, ToolPinStore, StoredPins, load, set_session_baseline,
}
use skillledger.Proxy.Pinning.Check.{check}
use skillledger.Proxy.Mcp.{
  World, Session, record_entry, record_all, violations_after, action_or_warn, change_entry,
  between_entry, rug_pull_entry, any_prefix, server_has_pins, changes_or_none, auto_pin,
  handle_first_tools_list, handle_subsequent_tools_list,
}
use skillledger.Proxy.Streamable.{
  StreamableProxy, write_to_violations, record_violation, record_violations, action_of, first_entry,
  subsequent_entry, some_key, has_pins, pin_first, first_tools_list, subsequent_tools_list,
}

-- The session of a wrapper that calls itself "mcp-streamable", names the target as its destination and
-- writes the violation file.
abbrev pub as_session : StreamableProxy → Session
as_session p = record {
  protocol = codes "mcp-streamable";
  destination = p.target_url;
  skill_id = [];
  server_id = p.server_id;
  policy_config = p.policy_config;
  inj_scanner = p.inj_scanner;
  pin_store = p.pin_store;
  pin_file = p.pin_file;
  tracker = p.tracker;
  session_pinned = p.session_pinned;
  decision_log = p.decision_log;
  violations = p.violation_writer;
  records = p.records;
}

write_to_violations-same :
    (o : Outside) (e : DecisionEntry) (file : Option Text)
    → write_to_violations o e file ≡ violations_after o e file
unfolding write_to_violations violations_after
write_to_violations-same o e none = refl
write_to_violations-same o e (some file) = refl

pub action_of-same :
    (pc : Option PolicyConfig) (violation : Text)
    → action_of pc violation ≡ action_or_warn pc violation
unfolding action_of action_or_warn
action_of-same none violation = refl
action_of-same (some pc) violation = refl

some_key-same : (prefix : Text) (ks : List Text) → some_key prefix ks ≡ any_prefix prefix ks
unfolding some_key any_prefix
some_key-same prefix [] = refl
some_key-same prefix (k ∷ ks) = ground (arith, some_key-same prefix ks)

has_pins-same : (server : Text) (st : ToolPinStore) → has_pins server st ≡ server_has_pins server st
unfolding has_pins server_has_pins
has_pins-same server st = some_key-same _ _

suc-nat_beq : (n : ℕ) → nat_beq (suc n) 0 ≡ false
suc-nat_beq n = ground arith

module _ (w : World) where
  record_violation-same :
      (e : DecisionEntry) (p : StreamableProxy)
      → as_session (record_violation w e p) ≡ record_entry w e (as_session p)
  unfolding record_violation record_entry
  record_violation-same e p =
      ap (λ v. record (as_session (record_violation w e p)) { violations = v })
        (write_to_violations-same (w.outside p.records) e p.violation_writer)

  record_violations-same :
      (es : List DecisionEntry) (p : StreamableProxy)
      → as_session (record_violations w es p) ≡ record_all w es (as_session p)
  unfolding record_violations record_all
  record_violations-same [] p = refl
  record_violations-same (e ∷ es) p =
      record_violations-same es (record_violation w e p)
      ∙ ap (record_all w es) (record_violation-same e p)

  first_entry-same :
      (p : StreamableProxy) (c : PinChange) → first_entry p c ≡ between_entry (as_session p) c
  unfolding first_entry change_entry
  first_entry-same p c =
      ap
        (λ action.
          change_entry (as_session p) (codes "between-session pin change")
            (codes "between-session pin change") action c)
        (action_of-same p.policy_config (codes "pin_change_between"))

  subsequent_entry-same :
      (p : StreamableProxy) (c : PinChange) → subsequent_entry p c ≡ rug_pull_entry (as_session p) c
  unfolding subsequent_entry change_entry
  subsequent_entry-same p c = refl

  pub recorded-same :
      {A : Type 0} (f g : A → DecisionEntry) (xs : List A) (p : StreamableProxy)
      → ((x : A) → f x ≡ g x)
      → as_session (record_violations w (map f xs) p) ≡ record_all w (map g xs) (as_session p)
  recorded-same f g xs p h =
      record_violations-same (map f xs) p
      ∙ ap (λ k. record_all w (map k xs) (as_session p)) (fun_ext h)

  reported-same :
      (first : Bool) (changes : List PinChange) (p : StreamableProxy)
      → as_session (
          if nat_beq (length changes) 0 && first
          then p
          else if ltb 0 (length changes)
          then record_violations w (map (first_entry p) changes) p
          else p)
        ≡ record_all w (map (between_entry (as_session p)) changes) (as_session p)
  unfolding record_all
  reported-same true [] p = refl
  reported-same false [] p = refl
  reported-same first (c ∷ cs) p =
      rw (suc-nat_beq (length cs), lt→ltb 0 (length (c ∷ cs)) (omega arith))
        (recorded-same (first_entry p) (between_entry (as_session p)) (c ∷ cs) p
          (first_entry-same p))

  pin_first-same :
      (now : ℕ) (server : Text) (ts : List McpTool) (st : ToolPinStore) (file : StoredPins)
      → pin_first w now server ts st file ≡ auto_pin w now server ts (st, file)
  unfolding pin_first auto_pin
  pin_first-same now server ts st file = refl

  pub first_tools_list-same :
      (ts : List McpTool) (st : ToolPinStore) (p : StreamableProxy)
      → as_session (first_tools_list w ts st p) ≡ handle_first_tools_list w ts st (as_session p)
  unfolding first_tools_list handle_first_tools_list pin_first auto_pin
  first_tools_list-same ts st p =
      let now = (w.outside p.records).now in
      let loaded = (load w.decode_pins p.pin_file st).1 in
      let changes = changes_or_none (check w.json now p.server_id ts false loaded) in
      let first = nat_beq (length changes) 0 && not (server_has_pins p.server_id loaded) in
      let (store, file) =
        if first
        then auto_pin w now p.server_id ts (loaded, p.pin_file)
        else (loaded, p.pin_file) in
      rw (has_pins-same p.server_id loaded) (
        ap {A = Session}
          (λ s. record s {
            pin_store = some (set_session_baseline w.json p.server_id ts store);
            pin_file = file;
            session_pinned = true;
          })
          (reported-same (not (server_has_pins p.server_id loaded)) changes p))

  pub subsequent_tools_list-same :
      (ts : List McpTool) (st : ToolPinStore) (p : StreamableProxy)
      → as_session (subsequent_tools_list w ts st p)
        ≡ handle_subsequent_tools_list w ts st (as_session p)
  unfolding subsequent_tools_list handle_subsequent_tools_list
  subsequent_tools_list-same ts st p =
      let now = (w.outside p.records).now in
      let changes = changes_or_none (check w.json now p.server_id ts true st) in
      ap {A = Session} (λ s. record s { pin_store = (subsequent_tools_list w ts st p).pin_store })
        (recorded-same (subsequent_entry p) (rug_pull_entry (as_session p)) changes p
          (subsequent_entry-same p))
