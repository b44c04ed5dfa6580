-- ===== src/Text/Sort.antt =====
-- sort.Strings: texts in the order of their bytes, sorted by insertion. Equal texts cannot be told
-- apart, so that every sorting algorithm gives this list.
use sentinel_protocol.Base.{
  ◌≡◌, refl, ap, ap₂, ◌∙◌, Bool, true, false, List, [], ◌∷◌, ltb, ◌==◌, if◌then◌else◌, arith,
}
use mathlib.Core.List.{Permᴰ}
use sentinel_protocol.Text.{Text}

unfoldable pub text_le : Text → Text → Bool
text_le [] t = true
text_le (a ∷ s) [] = false
text_le (a ∷ s) (b ∷ t) =
    let rest = text_le s t in if ltb a b then true else if a == b then rest else false

unfoldable pub insert : Text → List Text → List Text
insert s [] = s ∷ []
insert s (t ∷ ts) = let rest = insert s ts in if text_le s t then s ∷ t ∷ ts else t ∷ rest

unfoldable pub sort_strings : List Text → List Text
sort_strings [] = []
sort_strings (s ∷ ss) = insert s (sort_strings ss)

text_le_total : (s t : Text) → text_le s t ≡ false → text_le t s ≡ true
unfolding text_le
text_le_total [] t h = ground arith
text_le_total (a ∷ s) [] h = refl
text_le_total (a ∷ s) (b ∷ t) h = ground (arith, text_le_total s t)

text_le_antisym : (s t : Text) → text_le s t ≡ true → text_le t s ≡ true → s ≡ t
unfolding text_le
text_le_antisym [] [] h k = refl
text_le_antisym [] (b ∷ t) h k = ground arith
text_le_antisym (a ∷ s) [] h k = ground arith
text_le_antisym (a ∷ s) (b ∷ t) h k = ground (arith, text_le_antisym s t)

text_le_trans : (s t u : Text) → text_le s t ≡ true → text_le t u ≡ true → text_le s u ≡ true
unfolding text_le
text_le_trans [] t u h k = refl
text_le_trans (a ∷ s) [] u h k = ground arith
text_le_trans (a ∷ s) (b ∷ t) [] h k = ground arith
text_le_trans (a ∷ s) (b ∷ t) (c ∷ u) h k = ground (arith, text_le_trans s t u)

insert_comm : (a b : Text) (ts : List Text) → insert a (insert b ts) ≡ insert b (insert a ts)
unfolding insert
insert_comm a b [] = ground (arith, text_le_total a b, text_le_total b a, text_le_antisym a b)
insert_comm a b (t ∷ ts) = ground (
  arith,
  text_le_total a b,
  text_le_total b a,
  text_le_antisym a b,
  text_le_trans b a t,
  text_le_trans a b t,
  insert_comm a b ts,
)

-- The order in which the texts come makes no difference.
pub sort_strings_comm : {ss ts : List Text} → Permᴰ ss ts → sort_strings ss ≡ sort_strings ts
unfolding sort_strings
sort_strings_comm Permᴰ.nil = refl
sort_strings_comm (Permᴰ.cons {b = b} {l₁ = l₁} same p) =
    ap (λ s. insert s (sort_strings l₁)) same ∙ ap (insert b) (sort_strings_comm p)
sort_strings_comm (Permᴰ.swap {a} {b} {l} e f) =
    insert_comm a b (sort_strings l) ∙ ap₂ (λ s t. insert s (insert t (sort_strings l))) f e
sort_strings_comm (Permᴰ.trans p q) = sort_strings_comm p ∙ sort_strings_comm q
