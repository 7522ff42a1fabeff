-- ===== src/Proxy/Entropy.antt =====
-- proxy/entropy.go: the scanner of DNS names and the tracker of slow-drip exfiltration. Floating
-- point numbers are an argument, and so are ShannonEntropy, whose sum runs over a map in any order,
-- and net.SplitHostPort. The mutex makes each scan one step.
pub mod Bounds
mod Sessions
mod Tests
use skillledger.Base.{
  ℕ, ◌+◌, ◌-◌, ◌%◌, ◌^◌, Bool, true, ◌&&◌, ◌||◌, not, Option, none, some, List, [], ◌∷◌, ◌++◌, ltb,
  leb, nat_beq, if◌then◌else◌, length, take, drop, Text, codes, text_eq, join, Outcome, ok, err,
  Dict, lookup, put, remove, split_on,
}
use skillledger.Proxy.Scanner.{warn, log, Finding, redact}

-- float64, with "%.2f" as `show`.
pub record Floats (F : Type 0) : Type 0 where
  pub of_nat : ℕ → F
  pub add_float : F → F → F
  pub divide : F → F → F
  pub above : F → F → Bool
  pub show : F → Text
  pub shannon_entropy : Text → F

-- extractSubdomain
unfoldable pub extract_subdomain : Text → Text
unfolding split_on join
extract_subdomain hostname =
    let parts = split_on 46 hostname in
    if leb (length parts) 2 then [] else join (codes ".") (take (length parts - 2) parts)

unfoldable pub all_codes : (ℕ → Bool) → Text → Bool
all_codes p [] = true
all_codes p (c ∷ cs) = p c && all_codes p cs

abbrev between : ℕ → ℕ → ℕ → Bool
between low high c = leb low c && leb c high

abbrev base64_code : ℕ → Bool
base64_code c =
    between 65 90 c
    || between 97 122 c
    || between 48 57 c
    || nat_beq c 43
    || nat_beq c 47
    || nat_beq c 61
    || nat_beq c 95
    || nat_beq c 45

abbrev hex_code : ℕ → Bool
hex_code c = between 48 57 c || between 97 102 c || between 65 70 c

-- isLikelyBase64
unfoldable pub is_likely_base64 : Text → Bool
unfolding all_codes
is_likely_base64 s = leb 16 (length s) && all_codes base64_code s

unfoldable pub without : ℕ → Text → Text
without d [] = []
without d (c ∷ cs) = let rest = without d cs in if nat_beq c d then rest else c ∷ rest

-- isLikelyHex
unfoldable pub is_likely_hex : Text → Bool
unfolding all_codes without
is_likely_hex s =
    let cleaned = without 45 s in leb 16 (length cleaned) && all_codes hex_code cleaned

module _ {F : Type 0} (fl : Floats F) where
  pub record DnsExfilScanner : Type 0 where
    pub entropy_threshold : F
    pub encoded_ent_threshold : F
    pub min_subdomain_length : ℕ

  -- NewDNSExfilScanner
  unfoldable pub new_dns_exfil_scanner : DnsExfilScanner
  new_dns_exfil_scanner = record {
    entropy_threshold = fl.of_nat 4;
    encoded_ent_threshold = fl.of_nat 3;
    min_subdomain_length = 10;
  }

  -- The description has an em dash, in UTF-8.
  abbrev dns_finding : Text → Text → F → Finding
  dns_finding hostname subdomain entropy = record {
    scanner = codes "dns-exfil";
    severity = codes "high";
    description =
        codes "High-entropy subdomain ("
        ++ (fl.show entropy
            ++ (codes " bits/char) in "
                ++ (hostname ++ (32 ∷ 226 ∷ 128 ∷ 148 ∷ codes " possible DNS exfiltration"))));
    pattern = codes "dns-subdomain-entropy";
    match_value = redact subdomain;
    decision = warn;
  }

  -- DNSExfilScanner.Scan; `host` is Host of the request's URL.
  unfoldable pub scan_dns : (Text → Outcome Text) → DnsExfilScanner → Text → List Finding
  unfolding extract_subdomain is_likely_base64 is_likely_hex redact
  scan_dns split_host_port d host =
      let hostname : Text = elim (split_host_port host) [ err e ↦ host | ok h ↦ h ] in
      let subdomain = extract_subdomain hostname in
      let entropy = fl.shannon_entropy subdomain in
      let has_encoding = is_likely_base64 subdomain || is_likely_hex subdomain in
      let threshold = if has_encoding then d.encoded_ent_threshold else d.entropy_threshold in
      if ltb (length subdomain) d.min_subdomain_length
      then []
      else if not (fl.above entropy threshold)
      then []
      else if ltb (length subdomain) 20 && not has_encoding
      then []
      else dns_finding hostname subdomain entropy ∷ []

-- sessionState. The window's samples are in the order of arrival; totalBytes is an int64, kept as
-- its bits.
pub record SessionState (F : Type 0) : Type 0 where
  pub window : List F
  pub total_bytes : ℕ
  pub created : ℕ
  pub last_seen : ℕ

pub record EntropyTracker (F : Type 0) : Type 0 where
  pub sessions : Dict (SessionState F)
  pub window_size : ℕ
  pub max_sessions : ℕ

module _ {F : Type 0} where
  -- NewEntropyTracker
  unfoldable pub new_entropy_tracker : EntropyTracker F
  new_entropy_tracker = record { sessions = []; window_size = 50; max_sessions = 100 }

  -- The loop of evictOldest: the key and the time found so far.
  unfoldable pub oldest : Option (Text × ℕ) → Dict (SessionState F) → Option (Text × ℕ)
  oldest best [] = best
  oldest none ((k, s) ∷ m) = oldest (some (k, s.last_seen)) m
  oldest (some (k', t)) ((k, s) ∷ m) =
      let older = oldest (some (k, s.last_seen)) m in
      let same = oldest (some (k', t)) m in if ltb s.last_seen t then older else same

  -- evictOldest; without a session oldestKey stays empty.
  unfoldable pub evict_oldest : Dict (SessionState F) → Dict (SessionState F)
  unfolding oldest remove
  evict_oldest m = elim (oldest none m) [
    | none ↦ m
    | some (k, t) ↦ if text_eq k [] then m else remove k m
  ]

  -- Reset
  unfoldable pub reset : EntropyTracker F → EntropyTracker F
  reset t = record t { sessions = [] }

  -- SessionCount
  unfoldable pub session_count : EntropyTracker F → ℕ
  session_count t = length t.sessions

  abbrev pub new_state : ℕ → SessionState F
  new_state now = record { window = []; total_bytes = 0; created = now; last_seen = 0 }

  -- The sessions after the eviction that may precede a scan.
  unfoldable pub make_room : EntropyTracker F → Text → Dict (SessionState F)
  unfolding lookup evict_oldest
  make_room t key = elim (lookup key t.sessions) [
    | some s ↦ t.sessions
    | none ↦ if leb t.max_sessions (length t.sessions) then evict_oldest t.sessions else t.sessions
  ]

  -- The sliding window: append and trim.
  unfoldable pub slide : ℕ → F → List F → List F
  slide size sample window =
      let longer = window ++ sample ∷ [] in
      if ltb size (length longer) then drop (length longer - size) longer else longer

  unfoldable pub state_or_new : ℕ → Option (SessionState F) → SessionState F
  state_or_new now none = new_state now
  state_or_new now (some s) = s

module _ {F : Type 0} (fl : Floats F) where
  unfoldable pub sum : List F → F
  sum window = sum_from (fl.of_nat 0) window
    where
      sum_from : F → List F → F
      sum_from acc [] = acc
      sum_from acc (x ∷ xs) = sum_from (fl.add_float acc x) xs

  -- averageEntropy
  unfoldable pub average_entropy : List F → F
  unfolding sum
  average_entropy window =
      if nat_beq (length window) 0
      then fl.of_nat 0
      else fl.divide (sum window) (fl.of_nat (length window))

  abbrev pub drip_finding : F → ℕ → Text → (ℕ → Text) → Finding
  drip_finding avg samples key decimal = record {
    scanner = codes "entropy";
    severity = codes "medium";
    description =
        codes "Sustained high entropy ("
        ++ (fl.show avg
            ++ (codes " avg over "
                ++ (decimal samples
                    ++ (codes " requests) to "
                        ++ (key
                            ++ (32
                                ∷ 226
                                ∷ 128
                                ∷ 148
                                ∷ codes " possible slow-drip exfiltration"))))));
    pattern = [];
    match_value = [];
    decision = log;
  }

  -- What Scan reports of a window.
  unfoldable pub slow_drip : (ℕ → Text) → Text → List F → List Finding
  unfolding average_entropy
  slow_drip decimal key window =
      if leb 10 (length window) && fl.above (average_entropy window) (fl.of_nat 5)
      then drip_finding (average_entropy window) (length window) key decimal ∷ []
      else []

  -- EntropyTracker.Scan, for a request to the host `key`, at the times of its two calls of the clock.
  unfoldable pub scan_entropy :
      (ℕ → Text) → ℕ → ℕ → Text → Text → EntropyTracker F → List Finding × EntropyTracker F
  unfolding make_room state_or_new slide slow_drip put lookup
  scan_entropy decimal now seen key [] t = ([], t)
  scan_entropy decimal now seen key (c ∷ cs) t =
      let body = c ∷ cs in
      let room = make_room t key in
      let old = state_or_new now (lookup key room) in
      let window = slide t.window_size (fl.shannon_entropy body) old.window in
      let state = record old {
        window = window;
        total_bytes = (old.total_bytes + length body) % 2 ^ 64;
        last_seen = seen;
      } in
      (slow_drip decimal key window, record t { sessions = put key state room })
