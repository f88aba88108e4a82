-- ===== src/Prelude/Pairs.antt =====
-- Relations between each item of a list and those that come after it.
use mathlib.Core.Path.{◌≡◌, refl}
use mathlib.Core.Logic.{inl, inr}
use mathlib.Core.List.{List, [], ◌∷◌, ◌++◌}
use video_compute_pipeline.Prelude.Lists.{All, All-append}
use video_compute_pipeline.Prelude.Shuffle.{Any}

module _ {A : Type 0} where
  -- The relation holds between each item and all that come after it.
  abbrev pub Pairs : (A → A → Type 0) → List A → Type 0
  Pairs R [] = Unit
  Pairs R (x ∷ xs) = All (R x) xs × Pairs R xs

  pub Pairs-append_one :
      (R : A → A → Type 0) (xs : List A) (c : A)
      → Pairs R xs
      → All (λ x. R x c) xs
      → Pairs R (xs ++ (c ∷ []))
  Pairs-append_one R [] c p h = (tt, tt)
  Pairs-append_one R (x ∷ xs) c p h =
      (All-append (R x) xs (c ∷ []) p.0 (h.0, tt), Pairs-append_one R xs c p.1 h.1)

  pub Any-append_left : (P : A → Type 0) (xs ys : List A) → Any P xs → Any P (xs ++ ys)
  Any-append_left P [] ys h = absurd h
  Any-append_left P (x ∷ xs) ys (inl h) = inl h
  Any-append_left P (x ∷ xs) ys (inr h) = inr (Any-append_left P xs ys h)

  pub Any-append_end : (P : A → Type 0) (xs : List A) (c : A) → P c → Any P (xs ++ (c ∷ []))
  Any-append_end P [] c h = inl h
  Any-append_end P (x ∷ xs) c h = inr (Any-append_end P xs c h)

  pub All-map : (P Q : A → Type 0) → ((x : A) → P x → Q x) → (xs : List A) → All P xs → All Q xs
  All-map P Q f [] p = tt
  All-map P Q f (x ∷ xs) p = (f x p.0, All-map P Q f xs p.1)

  pub All-swap_tail :
      (R : A → A → Type 0) (xs : List A) (c : A) (cs : List A)
      → All (λ x. All (R x) (c ∷ cs)) xs
      → All (λ x. All (R x) cs) xs
  All-swap_tail R xs c cs h =
      All-map (λ x. All (R x) (c ∷ cs)) (λ x. All (R x) cs) (λ x p. p.1) xs h

  pub All-heads :
      (R : A → A → Type 0) (xs : List A) (c : A) (cs : List A)
      → All (λ x. All (R x) (c ∷ cs)) xs
      → All (λ x. R x c) xs
  All-heads R xs c cs h = All-map (λ x. All (R x) (c ∷ cs)) (λ x. R x c) (λ x p. p.0) xs h

  -- Every item is one of the list's.
  pub All-Any : (xs : List A) → All (λ x. Any (λ y. y ≡ x) xs) xs
  All-Any [] = tt
  All-Any (x ∷ xs) = (
    inl refl,
    All-map (λ z. Any (λ y. y ≡ z) xs) (λ z. Any (λ y. y ≡ z) (x ∷ xs)) (λ z h. inr h) xs
        (All-Any xs),
  )
