-- ===== src/Runner/Lookup.antt =====
-- pipeline/pipeline_runner.c: the encoder's list loses no packet, whatever order they come in.
use mathlib.Core.List.{Permᴰ}
use mathlib.Core.List.Permᴰ
use video_compute_pipeline.Prelude.{
  ◌≡◌, Bool-cases, inl, inr, Option, none, some, List, [], ◌∷◌, if_ind,
}
use video_compute_pipeline.Prelude.Int.{ℤ, eq_ℤ, eq_ℤ_iff, ltb_ℤ}
use video_compute_pipeline.Prelude.Shuffle.{Any, Permᴰ-cons, Permᴰ-swap}
use video_compute_pipeline.Runner.Pending.{
  PendingNode, index, insert_after, insert_sorted, keep, unlink,
}

module _ {T : Type 0} where
  insert_after-Permᴰ :
      (node cur : PendingNode T) (rest : List (PendingNode T))
      → Permᴰ (node ∷ cur ∷ rest) (insert_after node cur rest)
  unfolding insert_after
  insert_after-Permᴰ node cur [] = Permᴰ-swap
  insert_after-Permᴰ node cur (next ∷ rest) =
      if_ind (Permᴰ (node ∷ cur ∷ next ∷ rest)) (ltb_ℤ (index next) (index node))
        (Permᴰ.trans Permᴰ-swap (Permᴰ-cons (insert_after-Permᴰ node next rest))) Permᴰ-swap

  pub insert_sorted-Permᴰ :
      (node : PendingNode T) (ns : List (PendingNode T)) → Permᴰ (node ∷ ns) (insert_sorted node ns)
  unfolding insert_sorted
  insert_sorted-Permᴰ node [] = Permᴰ.refl (node ∷ [])
  insert_sorted-Permᴰ node (first ∷ rest) =
      if_ind (Permᴰ (node ∷ first ∷ rest)) (ltb_ℤ (index node) (index first))
        (Permᴰ.refl (node ∷ first ∷ rest)) (insert_after-Permᴰ node first rest)

  -- What the search for an index finds.
  pub data Found (i : ℤ) (ns : List (PendingNode T))
      : Option (PendingNode T × List (PendingNode T)) → Type 0 where
    missing : (Any (λ n. index n ≡ i) ns → ⊥) → Found i ns none
    found :
        {n : PendingNode T} {rest : List (PendingNode T)}
        → index n ≡ i
        → Permᴰ ns (n ∷ rest)
        → Found i ns (some (n, rest))

  search_on :
      (i : ℤ) (n : PendingNode T) (rest : List (PendingNode T))
      → (index n ≡ i → ⊥)
      → (o : Option (PendingNode T × List (PendingNode T))) → Found i rest o
      → Found i (n ∷ rest) (keep n o)
  unfolding keep
  search_on i n rest other none (missing m) =
      missing (λ a. elim a [ inl e ↦ other e | inr later ↦ m later ])
  search_on i n rest other (some (m, ms)) (found e p) =
      found e (Permᴰ.trans (Permᴰ-cons p) Permᴰ-swap)

  pub unlink-Found : (i : ℤ) (ns : List (PendingNode T)) → Found i ns (unlink i ns)
  unfolding unlink
  unlink-Found i [] = missing (λ a. a)
  unlink-Found i (n ∷ rest) = elim (Bool-cases (eq_ℤ (index n) i)) [
    | inl same ↦ rw same (found ((eq_ℤ_iff (index n) i).0 same) (Permᴰ.refl (n ∷ rest)))
    | inr other ↦ rw other (
        search_on i n rest (λ e. cc (other, (eq_ℤ_iff (index n) i).1 e)) (unlink i rest)
          (unlink-Found i rest))
  ]
