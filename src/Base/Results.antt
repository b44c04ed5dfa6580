-- ===== src/Base/Results.antt =====
-- Go's pair of a result and an error: one of the two. An error is kept as its text.
use Prim.Native.Nat.{ℕ}
use mathlib.Core.List.{List}

pub data Fallible {ℓ} (A : Type ℓ) : Type ℓ where
  ok : A → Fallible A
  err : List ℕ → Fallible A
