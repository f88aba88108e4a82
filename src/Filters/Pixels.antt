-- ===== src/Filters/Pixels.antt =====
-- cpu/cpu_filters.c: the loops over the pixels, with offsets that do not wrap, write each pixel once.
use native.Mathlib.Nat.{mul-le-mul}
use video_compute_pipeline.Prelude.{
  ℕ, zero, suc, ◌+◌, ◌*◌, ◌≤◌, ◌<◌, ◌≡◌, refl, ◌∙◌, ◌⊎◌, inl, inr, List, length, get_or, set,
  length-set, get_or-set_self, get_or-set_ne, dec_lt, subst, arith,
}
use video_compute_pipeline.Filters.{Pixel}

-- The loops with offsets that do not wrap.
unfoldable pub exact_pixel : List ℕ → ℕ → Pixel → List ℕ
exact_pixel bytes at p = set (set (set bytes at p.red) (at + 1) p.green) (at + 2) p.blue

unfoldable pub exact_row : (ℕ → Pixel) → ℕ → ℕ → List ℕ → List ℕ
unfolding exact_pixel
exact_row value row zero bytes = bytes
exact_row value row (suc x) bytes =
    exact_pixel (exact_row value row x bytes) (row + x * 3) (value x)

unfoldable pub exact_rows : (ℕ → ℕ → Pixel) → ℕ → ℕ → ℕ → List ℕ → List ℕ
unfolding exact_row
exact_rows value stride width zero bytes = bytes
exact_rows value stride width (suc y) bytes =
    exact_row (value y) (y * stride) width (exact_rows value stride width y bytes)

length-exact_pixel :
    (bytes : List ℕ) (at : ℕ) (p : Pixel) → length (exact_pixel bytes at p) ≡ length bytes
unfolding exact_pixel
length-exact_pixel bytes at p =
    length-set (set (set bytes at p.red) (at + 1) p.green) (at + 2) p.blue
    ∙ length-set (set bytes at p.red) (at + 1) p.green
    ∙ length-set bytes at p.red

length-exact_row :
    (value : ℕ → Pixel) (row n : ℕ) (bytes : List ℕ)
    → length (exact_row value row n bytes) ≡ length bytes
unfolding exact_row
length-exact_row value row zero bytes = refl
length-exact_row value row (suc x) bytes =
    length-exact_pixel (exact_row value row x bytes) (row + x * 3) (value x)
    ∙ length-exact_row value row x bytes

length-exact_rows :
    (value : ℕ → ℕ → Pixel) (stride width n : ℕ) (bytes : List ℕ)
    → length (exact_rows value stride width n bytes) ≡ length bytes
unfolding exact_rows
length-exact_rows value stride width zero bytes = refl
length-exact_rows value stride width (suc y) bytes =
    length-exact_row (value y) (y * stride) width (exact_rows value stride width y bytes)
    ∙ length-exact_rows value stride width y bytes

-- What a pixel's bytes are, from `at` on.
pub record Shows (bytes : List ℕ) (at : ℕ) (p : Pixel) : Type 0 where
  pub red : get_or bytes at 0 ≡ p.red
  pub green : get_or bytes (at + 1) 0 ≡ p.green
  pub blue : get_or bytes (at + 2) 0 ≡ p.blue

exact_pixel-Shows :
    (bytes : List ℕ) (at : ℕ) (p : Pixel)
    → at + 2 < length bytes
    → Shows (exact_pixel bytes at p) at p
unfolding exact_pixel
exact_pixel-Shows bytes at p h = record {
  red =
      get_or-set_ne (set (set bytes at p.red) (at + 1) p.green) p.blue 0
        (λ e. absurd (omega (arith, e)))
      ∙ get_or-set_ne (set bytes at p.red) p.green 0 (λ e. absurd (omega (arith, e)))
      ∙ get_or-set_self bytes at p.red 0 (omega (arith, h));
  green =
      get_or-set_ne (set (set bytes at p.red) (at + 1) p.green) p.blue 0
        (λ e. absurd (omega (arith, e)))
      ∙ get_or-set_self (set bytes at p.red) (at + 1) p.green 0
          (omega (arith, h, length-set bytes at p.red));
  blue = get_or-set_self (set (set bytes at p.red) (at + 1) p.green) (at + 2) p.blue 0 (
      omega
        (arith, h, length-set bytes at p.red, length-set (set bytes at p.red) (at + 1) p.green));
}

-- A byte outside the pixel keeps its value.
exact_pixel_other :
    (bytes : List ℕ) (at i : ℕ) (p : Pixel)
    → (i < at) ⊎ (at + 2 < i)
    → get_or (exact_pixel bytes at p) i 0 ≡ get_or bytes i 0
unfolding exact_pixel
exact_pixel_other bytes at i p h =
    get_or-set_ne (set (set bytes at p.red) (at + 1) p.green) p.blue 0 (λ e. ground (arith, h, e))
    ∙ get_or-set_ne (set bytes at p.red) p.green 0 (λ e. ground (arith, h, e))
    ∙ get_or-set_ne bytes p.red 0 (λ e. ground (arith, h, e))

kept_pixel :
    (bytes bytes' : List ℕ) (at : ℕ) (p : Pixel)
    → get_or bytes' at 0 ≡ get_or bytes at 0
    → get_or bytes' (at + 1) 0 ≡ get_or bytes (at + 1) 0
    → get_or bytes' (at + 2) 0 ≡ get_or bytes (at + 2) 0
    → Shows bytes at p
    → Shows bytes' at p
kept_pixel bytes bytes' at p a b c s = record {
  red = a ∙ s.red;
  green = b ∙ s.green;
  blue = c ∙ s.blue;
}

exact_row_other :
    (value : ℕ → Pixel) (row n i : ℕ) (bytes : List ℕ)
    → (i < row) ⊎ (row + n * 3 ≤ i)
    → get_or (exact_row value row n bytes) i 0 ≡ get_or bytes i 0
unfolding exact_row
exact_row_other value row zero i bytes h = refl
exact_row_other value row (suc x) i bytes h =
    exact_pixel_other (exact_row value row x bytes) (row + x * 3) i (value x) (ground (arith, h))
    ∙ exact_row_other value row x i bytes (ground (arith, h))

at_end : (n x : ℕ) → ¬ (x < n) → x < suc n → n ≡ x
at_end n x last h = omega (arith, last, h)

exact_row-Shows :
    (value : ℕ → Pixel) (row n x : ℕ) (bytes : List ℕ)
    → x < n
    → row + n * 3 ≤ length bytes
    → Shows (exact_row value row n bytes) (row + x * 3) (value x)
unfolding exact_row
exact_row-Shows value row zero x bytes h r = absurd (omega (arith, h))
exact_row-Shows value row (suc n) x bytes h r = elim (dec_lt x n) [
  | yes before ↦
      kept_pixel (exact_row value row n bytes) _ (row + x * 3) (value x)
        (exact_pixel_other _ (row + n * 3) (row + x * 3) (value n) (inl (omega (arith, before))))
        (exact_pixel_other _ (row + n * 3) (row + x * 3 + 1) (value n)
          (inl (omega (arith, before))))
        (exact_pixel_other _ (row + n * 3) (row + x * 3 + 2) (value n)
          (inl (omega (arith, before))))
        (exact_row-Shows value row n x bytes before (omega (arith, r)))
  | no last ↦
      subst
        (λ k.
          Shows (exact_pixel (exact_row value row n bytes) (row + n * 3) (value n)) (row + k * 3)
            (value k))
        (at_end n x last h)
        (exact_pixel-Shows (exact_row value row n bytes) (row + n * 3) (value n)
          (omega (arith, r, length-exact_row value row n bytes)))
]

exact_rows_after :
    (value : ℕ → ℕ → Pixel) (stride width n i : ℕ) (bytes : List ℕ)
    → width * 3 ≤ stride
    → n * stride ≤ i
    → get_or (exact_rows value stride width n bytes) i 0 ≡ get_or bytes i 0
unfolding exact_rows
exact_rows_after value stride width zero i bytes w h = refl
exact_rows_after value stride width (suc y) i bytes w h =
    exact_row_other (value y) (y * stride) width i (exact_rows value stride width y bytes)
      (inr (omega (arith, w, h)))
    ∙ exact_rows_after value stride width y i bytes w (omega (arith, h))

-- The bytes of a pixel come before the next row.
pub within :
    (stride width n y x k : ℕ)
    → width * 3 ≤ stride
    → y < n
    → x < width
    → k < 3
    → y * stride + x * 3 + k < n * stride
within stride width n y x k w h b c =
    omega
      (arith, w, b, c, mul-le-mul {n₁ = suc y} {m₁ = stride} {n₂ = n} {m₂ = stride} h (omega arith))

-- With offsets that do not wrap, every pixel of the image has its value.
pub exact_rows-Shows :
    (value : ℕ → ℕ → Pixel) (stride width n y x : ℕ) (bytes : List ℕ)
    → width * 3 ≤ stride
    → n * stride ≤ length bytes
    → y < n
    → x < width
    → Shows (exact_rows value stride width n bytes) (y * stride + x * 3) (value y x)
unfolding exact_rows
exact_rows-Shows value stride width zero y x bytes w r h b = absurd (omega (arith, h))
exact_rows-Shows value stride width (suc n) y x bytes w r h b = elim (dec_lt y n) [
  | yes before ↦
      kept_pixel (exact_rows value stride width n bytes) _ (y * stride + x * 3) (value y x)
        (exact_row_other (value n) (n * stride) width (y * stride + x * 3) _
          (inl (omega (arith, within stride width n y x 0 w before b (omega arith)))))
        (exact_row_other (value n) (n * stride) width (y * stride + x * 3 + 1) _
          (inl (within stride width n y x 1 w before b (omega arith))))
        (exact_row_other (value n) (n * stride) width (y * stride + x * 3 + 2) _
          (inl (within stride width n y x 2 w before b (omega arith))))
        (exact_rows-Shows value stride width n y x bytes w (omega (arith, r)) before b)
  | no last ↦
      subst
        (λ k.
          Shows (exact_row (value n) (n * stride) width (exact_rows value stride width n bytes))
            (k * stride + x * 3) (value k x))
        (at_end n y last h)
        (exact_row-Shows (value n) (n * stride) width x (exact_rows value stride width n bytes) b
          (omega (arith, w, r, length-exact_rows value stride width n bytes)))
]
