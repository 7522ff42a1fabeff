-- ===== src/Builder.antt =====
-- cli/internal/builder: the collector of source files. Archives, lockfiles and the build itself are
-- in its children. filepath.Match is an argument, and so is what the walk of a directory visits.
pub mod Ordered
pub mod Archive
pub mod Locked
mod Sorted
mod Tests
use skillledger.Base.{
  ℕ, ◌-◌, ◌*◌, Bool, false, ◌||◌, not, Option, none, some, List, [], ◌∷◌, ◌++◌, leb, if◌then◌else◌,
  length, take, Text, codes, text_eq, has_prefix, has_suffix, Outcome, ok, err, ◌>>=◌, ◌>>◌, wrap,
  trim_space, split_on, text_leb,
}

-- FileEntry
pub record FileEntry : Type 0 where
  pub rel_path : Text
  pub content : Text

-- A call of the function that Collect gives to Walk: the error that it is given, if any, what the
-- file is, its relative path with slashes, and what opening and reading it gives.
pub record Visit : Type 0 where
  pub path : Text
  pub rel : Text
  pub error : Option Text
  pub is_dir : Bool
  pub symlink : Bool
  pub regular : Bool
  pub opened : Outcome (Outcome Text)

-- DefaultIgnorePatterns
abbrev default_ignore_patterns : List Text
default_ignore_patterns =
    codes ".git"
    ∷ codes ".git/**"
    ∷ codes "*.skillledger.tar.gz"
    ∷ codes "skill-lock.json"
    ∷ codes ".skillledgerignore"
    ∷ codes "node_modules/**"
    ∷ codes "__pycache__/**"
    ∷ codes "*.pyc"
    ∷ codes ".DS_Store"
    ∷ []

-- Collector; `matches` is filepath.Match, an error counting as no match, and `decimal` the verb %d.
pub record Collector : Type 0 where
  pub ignore_patterns : List Text
  pub max_file_size : ℕ
  pub matches : Text → Text → Bool
  pub decimal : ℕ → Text

-- NewCollector, without options.
unfoldable pub new_collector : (Text → Text → Bool) → (ℕ → Text) → Collector
new_collector matches decimal = record {
  ignore_patterns = default_ignore_patterns;
  max_file_size = 50 * 1024 * 1024;
  matches = matches;
  decimal = decimal;
}

-- WithIgnorePatterns and WithMaxFileSize
unfoldable pub with_ignore_patterns : List Text → Collector → Collector
with_ignore_patterns patterns c = record c { ignore_patterns = c.ignore_patterns ++ patterns }

unfoldable pub with_max_file_size : ℕ → Collector → Collector
with_max_file_size bytes c = record c { max_file_size = bytes }

-- The lines of .skillledgerignore that count; TrimSpace also takes a carriage return away. No line
-- is longer than the buffer of bufio.Scanner.
unfoldable pub ignore_lines : List Text → List Text
unfolding trim_space has_prefix
ignore_lines [] = []
ignore_lines (l ∷ ls) =
    let rest = ignore_lines ls in
    let line = trim_space l in
    if text_eq line [] || has_prefix (codes "#") line then rest else line ∷ rest

-- The patterns of one Collect; the ignore file may be missing.
unfoldable pub patterns_of : Collector → Outcome Text → List Text
unfolding ignore_lines split_on
patterns_of c (err e) = c.ignore_patterns
patterns_of c (ok data_) = c.ignore_patterns ++ ignore_lines (split_on 10 data_)

unfoldable pub any_part : Collector → Text → List Text → Bool
any_part c pattern [] = false
any_part c pattern (p ∷ ps) = c.matches pattern p || any_part c pattern ps

-- The body of the loop of isIgnored.
unfoldable pub ignored_by : Collector → Text → Text → Bool
unfolding has_suffix has_prefix any_part split_on
ignored_by c rel pattern =
    let prefix = take (length pattern - 3) pattern in
    if has_suffix (codes "/**") pattern
    then text_eq rel prefix || has_prefix (prefix ++ codes "/") rel
    else any_part c pattern (split_on 47 rel) || c.matches pattern rel

-- isIgnored
unfoldable pub is_ignored : Collector → Text → List Text → Bool
unfolding ignored_by
is_ignored c rel [] = false
is_ignored c rel (p ∷ ps) = ignored_by c rel p || is_ignored c rel ps

-- strings.Contains(s, "..")
unfoldable pub has_dots : Text → Bool
unfolding has_prefix
has_dots [] = false
has_dots (c ∷ cs) = has_prefix (codes "..") (c ∷ cs) || has_dots cs

-- readLimited, of a file whose reading gives an error or its bytes.
unfoldable pub read_limited : Collector → Outcome Text → Outcome Text
read_limited c (err e) = err e
read_limited c (ok data_) =
    if leb (length data_) c.max_file_size
    then ok data_
    else err (codes "file exceeds size limit of " ++ (c.decimal c.max_file_size ++ codes " bytes"))

abbrev entry_of : Text → Text → Option FileEntry
entry_of rel content = some (record { rel_path = rel; content = content })

-- The function that Collect gives to Walk, with the entry that it appends.
unfoldable pub visit : Collector → List Text → Visit → Outcome (Option FileEntry)
unfolding has_dots is_ignored read_limited
visit c patterns v = elim v.error [
  | some e ↦ err (codes "walk " ++ (v.path ++ (codes ": " ++ e)))
  | none ↦
      if v.is_dir || v.symlink || not v.regular
      then ok none
      else if has_dots v.rel
      then err (codes "path traversal detected: " ++ v.rel)
      else if is_ignored c v.rel patterns
      then ok none
      else (do
        file ← wrap (codes "open " ++ v.rel) v.opened
        content ← wrap (codes "read " ++ v.rel) (read_limited c file)
        ok (entry_of v.rel content))
]

unfoldable pub append_entry : Option FileEntry → List FileEntry → List FileEntry
append_entry none es = es
append_entry (some e) es = e ∷ es

-- The entries in the order of the walk, up to its first error.
unfoldable pub walk : Collector → List Text → List Visit → Outcome (List FileEntry)
unfolding visit append_entry
walk c patterns [] = ok []
walk c patterns (v ∷ vs) = do
  entry ← visit c patterns v
  entries ← walk c patterns vs
  ok (append_entry entry entries)

-- sort.Slice by RelPath; the paths of one walk are distinct, so every algorithm gives this list.
unfoldable pub insert_entry : FileEntry → List FileEntry → List FileEntry
unfolding text_leb
insert_entry e [] = e ∷ []
insert_entry e (f ∷ fs) =
    let rest = insert_entry e fs in if text_leb e.rel_path f.rel_path then e ∷ f ∷ fs else f ∷ rest

unfoldable pub sort_entries : List FileEntry → List FileEntry
unfolding insert_entry
sort_entries [] = []
sort_entries (e ∷ es) = insert_entry e (sort_entries es)

-- Collect
unfoldable pub collect : Collector → Outcome Text → List Visit → Outcome (List FileEntry)
unfolding patterns_of walk sort_entries
collect c ignore_file visits = do
  entries ← walk c (patterns_of c ignore_file) visits
  ok (sort_entries entries)
