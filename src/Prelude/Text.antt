-- ===== src/Prelude/Text.antt =====
-- Texts as lists of character codes, and where their characters are.
use Prim.Native.Nat.{ℕ, zero, suc, ◌+◌}
use Prim.Native.Char.{code}
use Prim.Native.String.{String}
use mathlib.Core.Path.{◌≡◌, refl, ap, ◌∙◌}
use mathlib.Core.Bool.{Bool, true, false, ◌&&◌}
use mathlib.Core.Option.{Option, none, some}
use mathlib.Core.List.{List, [], ◌∷◌, ◌++◌}
use native.Mathlib.Omega.{arith}
use video_compute_pipeline.Prelude.Tests.{ltb, ◌==◌}
use video_compute_pipeline.Prelude.Lists.{length}

-- The codes of a literal.
abbrev pub codes : String → List ℕ
codes String.[] = []
codes (String.◌∷◌ c s) = code c ∷ codes s

abbrev pub code_eq : ℕ → ℕ → Bool
code_eq c d = c == d

abbrev pub text_eq : List ℕ → List ℕ → Bool
text_eq [] [] = true
text_eq [] (d ∷ t) = false
text_eq (c ∷ s) [] = false
text_eq (c ∷ s) (d ∷ t) = (c == d) && text_eq s t

abbrev pub is_nil {ℓ} : {A : Type ℓ} → List A → Bool
is_nil [] = true
is_nil (c ∷ cs) = false

abbrev pub same_length {ℓ} : {A : Type ℓ} → List A → List A → Bool
same_length s t = length s == length t

abbrev pub later_or : Bool → Option ℕ → Option ℕ
later_or here (some i) = some (suc i)
later_or true none = some 0
later_or false none = none

-- strrchr, as the index that it points to.
unfoldable pub last_index : ℕ → List ℕ → Option ℕ
last_index c [] = none
last_index c (x ∷ xs) = later_or (x == c) (last_index c xs)

-- `other && at < other`.
abbrev pub comes_before : ℕ → Option ℕ → Bool
comes_before at none = false
comes_before at (some other) = ltb at other

abbrev pub first {ℓ} : {A : Type ℓ} → ℕ → List A → List A
first zero cs = []
first (suc n) [] = []
first (suc n) (c ∷ cs) = c ∷ first n cs

abbrev pub rest_from {ℓ} : {A : Type ℓ} → ℕ → List A → List A
rest_from zero cs = cs
rest_from (suc n) [] = []
rest_from (suc n) (c ∷ cs) = rest_from n cs

pub last_index-append :
    (c j : ℕ) (s e : List ℕ) → last_index c e ≡ some j → last_index c (s ++ e) ≡ some (length s + j)
unfolding last_index
last_index-append c j [] e h = h ∙ ap some (omega arith)
last_index-append c j (x ∷ s) e h =
    ap (later_or (x == c)) (last_index-append c j s e h) ∙ ap some (omega arith)

pub last_index-append_none :
    (c : ℕ) (s e : List ℕ) → last_index c e ≡ none → last_index c (s ++ e) ≡ last_index c s
unfolding last_index
last_index-append_none c [] e h = h
last_index-append_none c (x ∷ s) e h = ap (later_or (x == c)) (last_index-append_none c s e h)

below_next :
    (here : Bool) (o : Option ℕ) (n : ℕ)
    → comes_before n o ≡ false
    → comes_before (suc n) (later_or here o) ≡ false
below_next here (some i) n h = ground (arith, h)
below_next true none n h = ground arith
below_next false none n h = refl

-- No index of a text is beyond its end.
pub last_index_below : (c : ℕ) (s : List ℕ) → comes_before (length s) (last_index c s) ≡ false
unfolding last_index
last_index_below c [] = refl
last_index_below c (x ∷ s) = below_next (x == c) (last_index c s) (length s) (last_index_below c s)

pub first-append {ℓ} : {A : Type ℓ} (s e : List A) → first (length s) (s ++ e) ≡ s
first-append [] e = refl
first-append (c ∷ s) e = ap (λ l. c ∷ l) (first-append s e)

pub rest_from-append {ℓ} : {A : Type ℓ} (s e : List A) → rest_from (length s) (s ++ e) ≡ e
rest_from-append [] e = refl
rest_from-append (c ∷ s) e = rest_from-append s e
