-- ===== src/Prelude/Window.antt =====
-- The part of an array that a circular queue occupies, and what a write does to it.
use Prim.Native.Nat.{ℕ, zero, suc, ◌+◌, ◌-◌, ◌%◌, ◌≤◌, ◌<◌}
use mathlib.Core.Path.{◌≡◌, refl, sym, ◌∙◌, ap, ap₂, subst}
use mathlib.Core.Logic.{◌≢◌}
use mathlib.Core.List.{List, [], ◌∷◌, ◌++◌}
use native.Mathlib.Nat.{mod-add-mod, mod-eq_of_lt, mod-eq-sub-mod, mod-lt, add-zero}
use native.Mathlib.Decide.{dec_lt}
use native.Mathlib.Omega.{arith}
use video_compute_pipeline.Prelude.Lists.{length, get_or, set, get_or-set_self, get_or-set_ne}

module _ {ℓ} {A : Type ℓ} (empty : A) (items : List A) (cap : ℕ) where
  -- The `count` elements from index `from` on, going round at `cap`.
  abbrev pub window : ℕ → ℕ → List A
  window from zero = []
  window from (suc count) = get_or items from empty ∷ window ((from + 1) % cap) count

  pub length-window : (from count : ℕ) → length (window from count) ≡ count
  length-window from zero = refl
  length-window from (suc count) = ap suc (length-window ((from + 1) % cap) count)

-- One step round the ring, and then `k` more.
pub shift : (cap h k : ℕ) → ((h + 1) % cap + k) % cap ≡ (h + suc k) % cap
shift cap h k = rw mod-add-mod (ap (λ n. n % cap) (omega arith))

-- A place beyond the end of the array, once round.
once_round : (cap at : ℕ) → cap ≤ at → at < cap + cap → at % cap ≡ at - cap
once_round cap at over twice =
    mod-eq-sub-mod {n = at} {m = cap} over
    ∙ mod-eq_of_lt {n = at - cap} {m = cap} (omega (arith, over, twice))

-- Fewer than `cap` steps round the ring do not come back to the start.
round_ne : {cap h k : ℕ} → h < cap → suc k < cap → (h + suc k) % cap ≢ h
round_ne {cap} {h} {k} inside few = elim (dec_lt (h + suc k) cap) [
  | yes short ↦ omega (arith, mod-eq_of_lt short)
  | no long ↦
      omega (arith, once_round cap (h + suc k) (omega (arith, long)) (omega (arith, inside, few)))
]

-- Going round from `h` by `n` and then by the rest of the ring comes back to `h`.
pub round_trip : (cap h n : ℕ) → h < cap → n < cap → ((h + n) % cap + suc (cap - n - 1)) % cap ≡ h
round_trip cap h n hh hn =
    mod-add-mod (h + n) cap (suc (cap - n - 1))
    ∙ ap (λ k. k % cap) over
    ∙ mod-eq-sub-mod {n = h + cap} {m = cap} (omega arith)
    ∙ mod-eq_of_lt {n = h + cap - cap} {m = cap} (omega arith)
    ∙ omega arith
  where
    over : h + n + suc (cap - n - 1) ≡ h + cap
    over = omega arith

module _ {ℓ} {A : Type ℓ} (d : A) (cap : ℕ) where
  -- A window that starts after `i` and stops before it comes round to `i` does not see `i`.
  window-off :
      (buf : List A) (i : ℕ) (v : A) (n j : ℕ)
      → i < cap
      → j + n < cap
      → window d (set buf i v) cap ((i + suc j) % cap) n ≡ window d buf cap ((i + suc j) % cap) n
  window-off buf i v zero j hi hn = refl
  window-off buf i v (suc n) j hi hn =
      ap₂ ◌∷◌
        (get_or-set_ne buf v d (λ e. round_ne {cap = cap} {h = i} {k = j} hi (omega arith) (sym e)))
        (subst (λ s. window d (set buf i v) cap s n ≡ window d buf cap s n) (sym next)
          (window-off buf i v n (suc j) hi (omega arith)))
    where
      next : ((i + suc j) % cap + 1) % cap ≡ (i + suc (suc j)) % cap
      next = mod-add-mod (i + suc j) cap 1 ∙ ap (λ k. k % cap) (omega arith)

  -- The element that a window gains when it grows at its end.
  window-suc :
      (buf : List A) (h n : ℕ)
      → h < cap
      → window d buf cap h (suc n) ≡ window d buf cap h n ++ (get_or buf ((h + n) % cap) d ∷ [])
  window-suc buf h zero hh = rw (add-zero, mod-eq_of_lt hh)
  window-suc buf h (suc n) hh =
      ap (λ w. get_or buf h d ∷ w)
        (window-suc buf ((h + 1) % cap) n (mod-lt (h + 1) (omega arith))
          ∙ ap (λ i. window d buf cap ((h + 1) % cap) n ++ (get_or buf i d ∷ [])) (shift cap h n))

  -- A write just past a window that does not fill the ring appends the value.
  pub window-set_end :
      (buf : List A) (h n : ℕ) (v : A)
      → cap ≡ length buf
      → h < cap
      → n < cap
      → window d (set buf ((h + n) % cap) v) cap h (suc n) ≡ window d buf cap h n ++ (v ∷ [])
  window-set_end buf h n v full hh hn =
      window-suc (set buf i v) h n hh
      ∙ ap₂ (λ w x. w ++ (x ∷ [])) unseen
          (get_or-set_self buf i v d (omega (arith, mod-lt (h + n) {m = cap} (omega arith))))
    where
      i : ℕ
      i = (h + n) % cap

      unseen : window d (set buf i v) cap h n ≡ window d buf cap h n
      unseen =
          subst (λ s. window d (set buf i v) cap s n ≡ window d buf cap s n)
            (round_trip cap h n hh hn)
            (window-off buf i v n (cap - n - 1) (mod-lt (h + n) (omega arith)) (omega arith))

  -- A write to the first place leaves the rest of the window as it was.
  pub window-set_head :
      (buf : List A) (h n : ℕ) (v : A)
      → h < cap
      → n < cap
      → window d (set buf h v) cap ((h + 1) % cap) n ≡ window d buf cap ((h + 1) % cap) n
  window-set_head buf h n v hh hn = window-off buf h v n 0 hh (omega arith)
