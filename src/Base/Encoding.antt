-- ===== src/Base/Encoding.antt =====
-- An encoding of texts that can be read back, for the runs of operations that store records.
use mathlib.Core.Path.{◌≡◌, refl, ap}
use mathlib.Core.List.{[], ◌∷◌, ◌++◌, map}
use Prim.Native.Nat.{zero, suc}
use skillledger.Base.Texts.{Text}

-- Back from a text with every byte one higher and a zero at the end, before the rest.
unfoldable pub decode_part : Text → Text × Text
decode_part [] = ([], [])
decode_part (zero ∷ cs) = ([], cs)
decode_part (suc n ∷ cs) = let (part, rest) = decode_part cs in (n ∷ part, rest)

pub decode-encode : (t rest : Text) → decode_part (map suc t ++ (0 ∷ rest)) ≡ (t, rest)
unfolding decode_part
decode-encode [] rest = refl
decode-encode (n ∷ t) rest = ap (λ p. (n ∷ p.0, p.1)) (decode-encode t rest)
