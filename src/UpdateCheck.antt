-- ===== src/UpdateCheck.antt =====
-- cli/internal/updatecheck/check.go: whether npm has a newer version, at most once a day. The
-- environment, paths, HTTP, encoding/json, files and golang.org/x/mod/semver are arguments; the
-- goroutine and its channel are not modelled.
mod Throttle
mod Tests
use skillledger.Base.{
  ℕ, zero, suc, ◌+◌, ◌-◌, ◌*◌, ◌/◌, ◌%◌, ◌^◌, ◌≤◌, ◌<◌, min, ◌≡◌, refl, sym, ap, ◌∙◌, fun_ext, ◌≢◌,
  ◌↔◌, ◌⊎◌, inl, inr, Bool, true, false, ◌&&◌, ◌||◌, not, Option, none, some, List, [], ◌∷◌, ◌++◌,
  map, append-nil, append_assoc, arith, ltb, leb, nat_beq, if◌then◌else◌, nat_beq_iff, ltb→lt,
  leb→le, Eq, ◌==◌, nat_eq, Bool-cases, Option-cases, length, get_elem?, set, take, drop, replicate,
  length-append, length-set, length-replicate, length-take, length-drop, get_elem?-set_self,
  get_elem?-set_ne, get_elem?-lt, take-drop-suc, take-min, take-take, take-append-drop, drop-append,
  List-cases, All, All-append, All-map, Text, codes, text_eq, text_eq→≡, text_eq_iff, text_eq_inst,
  join, has_prefix, has_suffix, to_lower, Outcome, ok, err, ◌>>=◌, ◌>>◌, wrap, Outcome-cases,
  >>=-ok, wrap-ok, trim_space, split_on, text_leb, insert_sorted, sort_strings, Dict, lookup, put,
  remove, keys, lookup-put, lookup-put_self, lookup-put_ne, lookup-remove, length-put,
}

-- Result
pub record CheckResult : Type 0 where
  pub latest_version : Text
  pub update_avail : Bool

-- CacheEntry
pub record CacheEntry : Type 0 where
  pub last_check : ℕ
  pub latest_version : Text

-- `get` gives the status and what reading the body gives. `write_file` gives the files there are
-- after it, and `newer` whether semver.Compare of its arguments is positive.
pub record UpdateWorld : Type 0 where
  pub linux : Bool
  pub get_env : Text → Text
  pub home : Text
  pub join : List Text → Text
  pub dir : Text → Text
  pub get : Text → Outcome (ℕ × Outcome Text)
  pub unmarshal_version : Text → Outcome Text
  pub unmarshal_entry : Text → Outcome CacheEntry
  pub marshal_entry : CacheEntry → Outcome Text
  pub make_directory : Text → Outcome (Unit {0})
  pub write_file : Text → Text → Dict Text → Dict Text
  pub is_valid : Text → Bool
  pub newer : Text → Text → Bool
  pub now : ℕ

-- cacheTTL, in nanoseconds.
abbrev pub cache_ttl : ℕ
cache_ttl = 24 * 3600 * 1000000000

-- ShouldCheck
unfoldable pub should_check : UpdateWorld → Bool → Bool
should_check w no_update_check_flag =
    if no_update_check_flag
    then false
    else if text_eq (w.get_env (codes "SKILLLEDGER_NO_UPDATE_CHECK")) (codes "1")
    then false
    else text_eq (w.get_env (codes "CI")) []

-- CacheDir
unfoldable pub cache_dir : UpdateWorld → Text
cache_dir w =
    if w.linux
    then (let xdg = w.get_env (codes "XDG_CACHE_HOME") in
        if text_eq xdg []
        then w.join (w.home ∷ codes ".cache" ∷ codes "skillledger" ∷ [])
        else w.join (xdg ∷ codes "skillledger" ∷ []))
    else w.join (w.home ∷ codes ".skillledger" ∷ [])

unfoldable pub cache_path : UpdateWorld → Text
unfolding cache_dir
cache_path w = w.join (cache_dir w ∷ codes "last-update-check" ∷ [])

-- readCache
unfoldable pub read_cache : UpdateWorld → Text → Dict Text → Outcome CacheEntry
unfolding lookup
read_cache w path files = elim (lookup path files) [
  | none ↦ err (codes "file does not exist")
  | some bytes ↦ w.unmarshal_entry bytes
]

-- writeCache
unfoldable pub write_cache : UpdateWorld → Text → CacheEntry → Dict Text → Dict Text
write_cache w path entry files = elim (w.make_directory (w.dir path)) [
  | err e ↦ files
  | ok _ ↦ elim (w.marshal_entry entry) [ err e ↦ files | ok bytes ↦ w.write_file path bytes files ]
]

-- The prefix "v" of compareVersions.
unfoldable pub with_v : Text → Text
with_v [] = []
with_v (c ∷ cs) = if nat_beq c 118 then c ∷ cs else 118 ∷ c ∷ cs

-- compareVersions
unfoldable pub compare_versions : UpdateWorld → Text → Text → Option CheckResult
unfolding with_v
compare_versions w current latest =
    let cv = with_v current in
    let lv = with_v latest in
    if w.is_valid cv
    then (if w.is_valid lv
        then some (record { latest_version = latest; update_avail = w.newer lv cv })
        else none)
    else none

-- The request of doCheck: the version, if there is one. A body is cut at one MiB.
unfoldable pub fetch_version : UpdateWorld → Text → Option Text
fetch_version w endpoint = elim (w.get endpoint) [
  | err e ↦ none
  | ok (status, err e) ↦ none
  | ok (status, ok body) ↦
      if nat_beq status 200
      then elim (w.unmarshal_version (take 1048576 body)) [
        | err e ↦ none
        | ok version ↦ if text_eq version [] then none else some version
      ]
      else none
]

-- doCheck after the cache: the result and the files.
unfoldable pub check_registry :
    UpdateWorld → Text → Text → Dict Text → Option CheckResult × Dict Text
unfolding fetch_version write_cache compare_versions cache_path
check_registry w current endpoint files = elim (fetch_version w endpoint) [
  | none ↦ (none, files)
  | some version ↦ (
    compare_versions w current version,
    write_cache w (cache_path w) (record { last_check = w.now; latest_version = version }) files,
  )
]

-- doCheck
unfoldable pub do_check : UpdateWorld → Text → Text → Dict Text → Option CheckResult × Dict Text
unfolding read_cache check_registry compare_versions cache_path
do_check w current endpoint files = elim (read_cache w (cache_path w) files) [
  | err e ↦ check_registry w current endpoint files
  | ok entry ↦
      if ltb w.now (entry.last_check + cache_ttl)
      then (compare_versions w current entry.latest_version, files)
      else check_registry w current endpoint files
]

-- PrintNotice: what is printed to stderr.
unfoldable pub print_notice : Option CheckResult → Text → Text
print_notice none current = []
print_notice (some r) current =
    if r.update_avail
    then codes "\nA new version of skillledger is available: v"
      ++ (r.latest_version
          ++ (codes " (you have v"
              ++ (current ++ codes ").\nUpdate with: npm i -g skillledger\n\n")))
    else []
