-- ===== src/UpdateCheck/Tests.antt =====
-- Runs of cli/internal/updatecheck/check.go.
use skillledger.Base.{
  ◌≡◌, refl, true, false, ◌&&◌, not, none, some, [], ◌∷◌, if◌then◌else◌, nat_eq, Text, codes,
  text_eq, text_eq_inst, join, ok, err, text_leb, put,
}
use skillledger.UpdateCheck.{
  UpdateWorld, cache_path, should_check, cache_dir, with_v, do_check, print_notice,
}

-- A machine without variables, whose cache holds only the version of an entry, written at time 5.
abbrev world : UpdateWorld
world = record {
  linux = true;
  get_env = λ name. [];
  home = codes "/home/u";
  join = join (codes "/");
  dir = λ path. path;
  get = λ endpoint. ok (200, ok (codes "1.2.0"));
  unmarshal_version = λ body. ok body;
  unmarshal_entry = λ bytes. ok (record { last_check = 5; latest_version = bytes });
  marshal_entry = λ entry. ok entry.latest_version;
  make_directory = λ path. ok tt;
  write_file = put;
  is_valid = λ version. true;
  newer = λ a b. text_leb b a && not (text_eq a b);
  now = 5;
}

with_v_plain : with_v (codes "1.2.0") ≡ codes "v1.2.0"
unfolding with_v
with_v_plain = refl

linux_cache : cache_dir world ≡ codes "/home/u/.cache/skillledger"
unfolding cache_dir text_eq join
linux_cache = refl

abbrev ci : Text → Text
ci name = if text_eq name (codes "CI") then codes "false" else []

opted_out : should_check (record world { get_env = ci }) false ≡ false
unfolding should_check text_eq
opted_out = refl

first_check : do_check world (codes "1.0.0") (codes "e") [] ≡ (
  some (record { latest_version = codes "1.2.0"; update_avail = true }),
  (cache_path world, codes "1.2.0") ∷ [],
)
unfolding do_check text_eq text_leb put
first_check = refl

offline :
    do_check (record world { get = λ e. err (codes "offline") }) (codes "1.0.0") (codes "e") []
    ≡ (none, [])
unfolding do_check text_eq text_leb put
offline = refl

no_news :
    print_notice
      (some (record { latest_version = codes "1.0.0"; update_avail = false }))
      (codes "1.0.0")
    ≡ []
unfolding print_notice
no_news = refl
