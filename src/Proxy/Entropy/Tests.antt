-- ===== src/Proxy/Entropy/Tests.antt =====
-- Runs of proxy/entropy.go, and its theorems at concrete inputs.
use skillledger.Base.{
  ℕ, ◌+◌, ◌*◌, ◌/◌, ◌≡◌, refl, ◌≢◌, true, List, [], ◌∷◌, map, arith, ltb, length, replicate, Text,
  codes, text_eq, err,
}
use skillledger.Proxy.Scanner.{Finding}
use skillledger.Proxy.Entropy.{
  Floats, EntropyTracker, extract_subdomain, is_likely_hex, scan_dns, new_dns_exfil_scanner,
  scan_entropy, session_count, slow_drip,
}
use skillledger.Proxy.Entropy.Bounds.{Call, Bounded, after_calls, after_calls-Bounded}

-- Numbers of thousandths; the entropy of a text is its length.
abbrev floats : Floats ℕ
floats = record {
  of_nat = λ n. n * 1000;
  add_float = λ a b. a + b;
  divide = λ a b. (a * 1000) / b;
  above = λ a b. ltb b a;
  show = λ a. a ∷ [];
  shannon_entropy = λ s. length s * 1000;
}

subdomain : extract_subdomain (codes "a.b.example.com") ≡ codes "a.b"
unfolding extract_subdomain
subdomain = refl

no_subdomain : extract_subdomain (codes "example.com") ≡ []
unfolding extract_subdomain
no_subdomain = refl

hex_with_hyphens : is_likely_hex (codes "0123-4567-89ab-cdef") ≡ true
unfolding is_likely_hex
hex_with_hyphens = refl

encoded_name :
    map
      (λ (f : Finding). f.pattern)
      (scan_dns floats
        (λ host. err [])
        (new_dns_exfil_scanner floats)
        (codes "0123456789abcdef.example.com"))
    ≡ codes "dns-subdomain-entropy" ∷ []
unfolding scan_dns new_dns_exfil_scanner
encoded_name = refl

slow : length (slow_drip floats (λ n. n ∷ []) (codes "h") (replicate 10 6000)) ≡ 1
unfolding slow_drip
slow = refl

abbrev calls : List Call
calls =
    record { key = codes "a"; body = codes "x"; now = 1; seen = 2 }
    ∷ record { key = codes "b"; body = codes "y"; now = 3; seen = 4 }
    ∷ record { key = codes "c"; body = codes "z"; now = 5; seen = 6 }
    ∷ []

-- A tracker of two sessions, with windows of three samples.
abbrev small : EntropyTracker ℕ
small = record { sessions = []; window_size = 3; max_sessions = 2 }

evicted :
    map (λ (k, s). k) (after_calls floats (λ n. n ∷ []) calls small).sessions
    ≡ codes "b" ∷ codes "c" ∷ []
unfolding after_calls scan_entropy text_eq
evicted = refl

not_empty : (c : ℕ) (cs : Text) → c ∷ cs ≢ []
not_empty c cs h = absurd cc

small-Bounded : Bounded small
unfolding session_count
small-Bounded = (omega arith, tt)

after_calls-Bounded_example : Bounded (after_calls floats (λ n. n ∷ []) calls small)
after_calls-Bounded_example =
    after_calls-Bounded floats (λ n. n ∷ []) calls small
      (not_empty 97 [], (not_empty 98 [], (not_empty 99 [], tt))) (omega arith) small-Bounded
