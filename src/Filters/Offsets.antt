-- ===== src/Filters/Offsets.antt =====
-- cpu/cpu_filters.c: where the bytes of a row are within an int, no offset of the loops wraps.
use native.Mathlib.Nat.{mul-le-mul}
use video_compute_pipeline.Prelude.{
  ℕ, zero, suc, ◌+◌, ◌*◌, ◌%◌, ◌^◌, ◌≤◌, ◌<◌, ◌≡◌, refl, ◌∙◌, List, length, set, arith, ap,
}
use video_compute_pipeline.Prelude.Int.{pos}
use video_compute_pipeline.Filters.{Pixel, put_pixel, write_row, write_rows, at_index, row_start}
use video_compute_pipeline.Filters.Pixels.{
  exact_pixel, exact_row, exact_rows, Shows, exact_rows-Shows,
}

-- An index that an int holds is the sum itself.
pub at_index_lem : (row x k : ℕ) → x * 3 + k < 2 ^ 31 → at_index row x k ≡ pos (row + x * 3 + k)
at_index_lem row x k h = ground (arith, h)

pub row_start_lem :
    (stride n y : ℕ)
    → n ≤ 2 ^ 31
    → n * stride < 2 ^ 63
    → y < n
    → row_start stride (pos y) ≡ y * stride
row_start_lem stride n y small h b = omega (
  arith,
  small,
  h,
  b,
  mul-le-mul {n₁ = y} {m₁ = stride} {n₂ = n} {m₂ = stride} (omega (arith, b)) (omega arith),
  ap (λ k. k * stride) fits,
)
  where
    fits : y % 2 ^ 64 ≡ y
    fits = omega (arith, small, b)

put_pixel_same :
    (bytes : List ℕ) (row x : ℕ) (p : Pixel)
    → x * 3 + 2 < 2 ^ 31
    → put_pixel bytes row x p ≡ exact_pixel bytes (row + x * 3) p
unfolding put_pixel exact_pixel
put_pixel_same bytes row x p h =
    rw
      (
        at_index_lem row x 0 (omega (arith, h)),
        at_index_lem row x 1 (omega (arith, h)),
        at_index_lem row x 2 h,
      )
      (ap (λ i. set (set (set bytes i p.red) (row + x * 3 + 1) p.green) (row + x * 3 + 2) p.blue)
        (omega arith))

write_row_same :
    (value : ℕ → Pixel) (row n : ℕ) (bytes : List ℕ)
    → n * 3 < 2 ^ 31
    → write_row value row n bytes ≡ exact_row value row n bytes
unfolding write_row exact_row
write_row_same value row zero bytes h = refl
write_row_same value row (suc x) bytes h =
    put_pixel_same (write_row value row x bytes) row x (value x) (omega (arith, h))
    ∙ ap (λ b. exact_pixel b (row + x * 3) (value x))
        (write_row_same value row x bytes (omega (arith, h)))

write_rows_same :
    (value : ℕ → ℕ → Pixel) (stride width n : ℕ) (bytes : List ℕ)
    → width * 3 < 2 ^ 31
    → n ≤ 2 ^ 31
    → n * stride < 2 ^ 63
    → write_rows value stride width n bytes ≡ exact_rows value stride width n bytes
unfolding write_rows exact_rows
write_rows_same value stride width zero bytes w m h = refl
write_rows_same value stride width (suc y) bytes w m h =
    write_row_same (value y) (row_start stride (pos y)) width _ w
    ∙ ap (λ row. exact_row (value y) row width (write_rows value stride width y bytes))
        (row_start_lem stride (suc y) y m h (omega arith))
    ∙ ap (exact_row (value y) (y * stride) width)
        (write_rows_same value stride width y bytes w (omega (arith, m)) (omega (arith, h)))

-- After the loops of the source, every pixel of the image has its value.
pub write_rows-Shows :
    (value : ℕ → ℕ → Pixel) (stride width n y x : ℕ) (bytes : List ℕ)
    → width * 3 < 2 ^ 31
    → n ≤ 2 ^ 31
    → n * stride < 2 ^ 63
    → width * 3 ≤ stride
    → n * stride ≤ length bytes
    → y < n
    → x < width
    → Shows (write_rows value stride width n bytes) (y * stride + x * 3) (value y x)
write_rows-Shows value stride width n y x bytes small rows area w r h b =
    rw (write_rows_same value stride width n bytes small rows area)
      (exact_rows-Shows value stride width n y x bytes w r h b)
