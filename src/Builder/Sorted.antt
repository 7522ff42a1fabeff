-- ===== src/Builder/Sorted.antt =====
-- The order of paths, as strings, and the insertion of entries by it: cli/internal/builder.
use skillledger.Base.{◌≡◌, refl, ◌≢◌, ◌⊎◌, inl, inr, true, List, [], ◌∷◌, arith, Text, text_leb}
use skillledger.Builder.{FileEntry, insert_entry}

text_leb_total : (s t : Text) → (text_leb s t ≡ true) ⊎ (text_leb t s ≡ true)
unfolding text_leb
text_leb_total [] t = inl refl
text_leb_total (a ∷ s) [] = inr refl
text_leb_total (a ∷ s) (b ∷ t) = ground (arith, text_leb_total s t)

text_leb_antisym : (s t : Text) → text_leb s t ≡ true → text_leb t s ≡ true → s ≡ t
unfolding text_leb
text_leb_antisym [] [] h k = refl
text_leb_antisym [] (b ∷ t) h k = absurd cc
text_leb_antisym (a ∷ s) [] h k = absurd cc
text_leb_antisym (a ∷ s) (b ∷ t) h k =
    let heads : a ≡ b = ground arith in
    let tails : s ≡ t = text_leb_antisym s t (ground arith) (ground arith) in cc

text_leb_trans : (s t u : Text) → text_leb s t ≡ true → text_leb t u ≡ true → text_leb s u ≡ true
unfolding text_leb
text_leb_trans [] t u h k = refl
text_leb_trans (a ∷ s) [] u h k = absurd cc
text_leb_trans (a ∷ s) (b ∷ t) [] h k = absurd cc
text_leb_trans (a ∷ s) (b ∷ t) (c ∷ u) h k = ground (arith, text_leb_trans s t u)

pub insert_comm :
    (e f : FileEntry) (gs : List FileEntry)
    → e.rel_path ≢ f.rel_path
    → insert_entry e (insert_entry f gs) ≡ insert_entry f (insert_entry e gs)
unfolding insert_entry
insert_comm e f [] ne =
    ground (arith, text_leb_total e.rel_path f.rel_path, text_leb_antisym e.rel_path f.rel_path)
insert_comm e f (g ∷ gs) ne = ground (
  arith,
  text_leb_total e.rel_path f.rel_path,
  text_leb_antisym e.rel_path f.rel_path,
  text_leb_trans e.rel_path f.rel_path g.rel_path,
  text_leb_trans f.rel_path e.rel_path g.rel_path,
  insert_comm e f gs ne,
)
