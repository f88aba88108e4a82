-- ===== src/Prelude/Count.antt =====
-- Lists as multisets: how often a number occurs.
use Prim.Native.Nat.{ℕ, ◌+◌}
use mathlib.Core.Path.{◌≡◌}
use mathlib.Core.List.{List, [], ◌∷◌, ◌++◌}
use native.Mathlib.Omega.{arith}
use video_compute_pipeline.Prelude.Tests.{◌==◌, if◌then◌else◌}

unfoldable pub count : ℕ → List ℕ → ℕ
count a [] = 0
count a (x ∷ xs) = (if x == a then 1 else 0) + count a xs

-- The two lists hold the same items, each as often.
abbrev pub SameItems : List ℕ → List ℕ → Type 0
SameItems xs ys = (a : ℕ) → count a xs ≡ count a ys

pub count-append : (a : ℕ) (xs ys : List ℕ) → count a (xs ++ ys) ≡ count a xs + count a ys
unfolding count
count-append a [] ys = omega arith
count-append a (x ∷ xs) ys = omega (arith, count-append a xs ys)

pub count-nil : (a : ℕ) → count a [] ≡ 0
unfolding count
count-nil a = omega arith

pub count-cons : (a x : ℕ) (xs : List ℕ) → count a (x ∷ xs) ≡ count a (x ∷ []) + count a xs
unfolding count
count-cons a x xs = omega arith

-- The laws by which `omega` compares two multisets.
pub ruleset items = (arith, count-append, count-nil, count-cons)
