-- ===== src/Prelude/Shuffle.antt =====
-- What a list keeps when its items are put in another order.
use Prim.Native.Nat.{ℕ, zero, suc, ◌<◌}
use mathlib.Core.Path.{◌≡◌, refl, sym, ◌∙◌, ap, subst}
use mathlib.Core.Logic.{◌⊎◌, inl, inr}
use mathlib.Core.List.{List, [], ◌∷◌, Permᴰ}
use native.Mathlib.Omega.{arith}
use video_compute_pipeline.Prelude.Lists.{length, get_or, All}

-- A predicate of some item.
abbrev pub Any {ℓ} : {A : Type ℓ} → (A → Type 0) → List A → Type 0
Any P [] = ⊥
Any P (x ∷ xs) = P x ⊎ Any P xs

module _ {ℓ} {A : Type ℓ} where
  pub length-Permᴰ : {xs ys : List A} → Permᴰ xs ys → length xs ≡ length ys
  length-Permᴰ Permᴰ.nil = refl
  length-Permᴰ (Permᴰ.cons e p) = ap suc (length-Permᴰ p)
  length-Permᴰ (Permᴰ.swap d e) = refl
  length-Permᴰ (Permᴰ.trans p q) = length-Permᴰ p ∙ length-Permᴰ q

  pub Permᴰ_symm : {xs ys : List A} → Permᴰ xs ys → Permᴰ ys xs
  Permᴰ_symm Permᴰ.nil = Permᴰ.nil
  Permᴰ_symm (Permᴰ.cons e p) = Permᴰ.cons (sym e) (Permᴰ_symm p)
  Permᴰ_symm (Permᴰ.swap d e) = Permᴰ.swap (sym e) (sym d)
  Permᴰ_symm (Permᴰ.trans p q) = Permᴰ.trans (Permᴰ_symm q) (Permᴰ_symm p)

  pub Permᴰ-cons : {x : A} {xs ys : List A} → Permᴰ xs ys → Permᴰ (x ∷ xs) (x ∷ ys)
  Permᴰ-cons p = Permᴰ.cons refl p

  pub Permᴰ-swap : {x y : A} {xs : List A} → Permᴰ (x ∷ y ∷ xs) (y ∷ x ∷ xs)
  Permᴰ-swap = Permᴰ.swap refl refl

  module _ (P : A → Type 0) where
    pub All-Permᴰ : {xs ys : List A} → Permᴰ xs ys → All P xs → All P ys
    All-Permᴰ Permᴰ.nil h = h
    All-Permᴰ (Permᴰ.cons e p) h = (subst P e h.0, All-Permᴰ p h.1)
    All-Permᴰ (Permᴰ.swap d e) h = (subst P e h.1.0, (subst P d h.0, h.1.1))
    All-Permᴰ (Permᴰ.trans p q) h = All-Permᴰ q (All-Permᴰ p h)

    pub Any-Permᴰ : {xs ys : List A} → Permᴰ xs ys → Any P xs → Any P ys
    Any-Permᴰ Permᴰ.nil h = h
    Any-Permᴰ (Permᴰ.cons e p) (inl h) = inl (subst P e h)
    Any-Permᴰ (Permᴰ.cons e p) (inr h) = inr (Any-Permᴰ p h)
    Any-Permᴰ (Permᴰ.swap d e) (inl h) = inr (inl (subst P d h))
    Any-Permᴰ (Permᴰ.swap d e) (inr (inl h)) = inl (subst P e h)
    Any-Permᴰ (Permᴰ.swap d e) (inr (inr h)) = inr (inr h)
    Any-Permᴰ (Permᴰ.trans p q) h = Any-Permᴰ q (Any-Permᴰ p h)

    pub All-get_or :
        (d : A) (xs : List A) → ((i : ℕ) → i < length xs → P (get_or xs i d)) → All P xs
    All-get_or d [] h = tt
    All-get_or d (x ∷ xs) h =
        (h 0 (omega arith), All-get_or d xs (λ i lt. h (suc i) (omega (arith, lt))))

    pub Any-get_or : (d : A) (xs : List A) (i : ℕ) → i < length xs → P (get_or xs i d) → Any P xs
    Any-get_or d [] i lt h = absurd (omega (arith, lt))
    Any-get_or d (x ∷ xs) zero lt h = inl h
    Any-get_or d (x ∷ xs) (suc i) lt h = inr (Any-get_or d xs i (omega (arith, lt)) h)
