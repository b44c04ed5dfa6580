-- ===== src/Guard/Tags/Dedupe.antt =====
-- dedupe keeps every tag and no tag twice.
use sentinel_protocol.Base.{true, false, ◌||◌, ◌≡◌, refl, List, [], ◌∷◌, ◌++◌, arith}
use sentinel_protocol.Guard.Tags.{Tag, contains_tag, dedupe_from, dedupe}

pub contains_tag-append :
    (xs ys : List Tag) (t : Tag)
    → contains_tag (xs ++ ys) t ≡ (contains_tag xs t || contains_tag ys t)
unfolding contains_tag
contains_tag-append [] ys t = refl
contains_tag-append (x ∷ xs) ys t = ground (arith, contains_tag-append xs ys t)

contains_tag-dedupe_from :
    (seen xs : List Tag) (t : Tag)
    → (contains_tag seen t || contains_tag (dedupe_from seen xs) t)
      ≡ (contains_tag seen t || contains_tag xs t)
unfolding contains_tag dedupe_from
contains_tag-dedupe_from seen [] t = refl
contains_tag-dedupe_from seen (x ∷ xs) t =
    ground (arith, contains_tag-dedupe_from seen xs t, contains_tag-dedupe_from (x ∷ seen) xs t)

-- Deduplication loses no tag and makes none up.
pub contains_tag-dedupe : (xs : List Tag) (t : Tag) → contains_tag (dedupe xs) t ≡ contains_tag xs t
unfolding dedupe contains_tag
contains_tag-dedupe xs t = contains_tag-dedupe_from [] xs t

-- No tag stands twice.
abbrev pub IsDistinct : List Tag → Type 0
IsDistinct [] = Unit {0}
IsDistinct (t ∷ tags) = (contains_tag tags t ≡ false) × IsDistinct tags

seen_left_out :
    (seen xs : List Tag) (t : Tag)
    → contains_tag seen t ≡ true
    → contains_tag (dedupe_from seen xs) t ≡ false
unfolding contains_tag dedupe_from
seen_left_out seen [] t h = refl
seen_left_out seen (x ∷ xs) t h =
    ground (arith, seen_left_out seen xs t, seen_left_out (x ∷ seen) xs t)

contains_tag_self : (t : Tag) (ts : List Tag) → contains_tag (t ∷ ts) t ≡ true
unfolding contains_tag
contains_tag_self t ts = ground arith

dedupe_from-IsDistinct : (seen xs : List Tag) → IsDistinct (dedupe_from seen xs)
unfolding dedupe_from
dedupe_from-IsDistinct seen [] = tt
dedupe_from-IsDistinct seen (x ∷ xs) = ground (
  arith,
  dedupe_from-IsDistinct seen xs,
  dedupe_from-IsDistinct (x ∷ seen) xs,
  seen_left_out (x ∷ seen) xs x,
  contains_tag_self x seen,
)

pub dedupe-IsDistinct : (xs : List Tag) → IsDistinct (dedupe xs)
unfolding dedupe
dedupe-IsDistinct xs = dedupe_from-IsDistinct [] xs
