-- ===== src/Filters/Average.antt =====
-- cpu/cpu_filters.c: the kernel of the box blur reads inside the image, and no int of it overflows.
use native.Mathlib.Nat.{div-le_of_le-mul, mul_assoc, mul-le-mul}
use video_compute_pipeline.Prelude.{
  ℕ, zero, suc, ◌+◌, ◌-◌, ◌*◌, ◌/◌, ◌%◌, ◌^◌, ◌≤◌, ◌<◌, ◌≡◌, refl, ap, ◌∙◌, arith, ltb,
  if◌then◌else◌,
}
use video_compute_pipeline.Prelude.Int.{ℤ, pos}
use video_compute_pipeline.ExecutionPlan.Profile.{wrap_int, wrap_int_lem}
use video_compute_pipeline.Filters.{
  advance, to_int, neighbour, pixel_offset, accumulate, window_sum, div_int, window_average,
  to_byte,
}
use video_compute_pipeline.Filters.Pixels.{within}
use video_compute_pipeline.Filters.Offsets.{row_start_lem}

-- The sum of the first `n` values.
unfoldable pub sum : (ℕ → ℕ) → ℕ → ℕ
sum f zero = 0
sum f (suc n) = sum f n + f n

-- The coordinate nearest to `i - half`, of `count`.
abbrev pub nearest : ℕ → ℕ → ℕ → ℕ
nearest count half i = if ltb (i - half) count then i - half else count - 1

-- Where the kernel's offset leaves the image, its nearest row or column is read.
pub neighbour-nearest :
    (kernel count at i : ℕ)
    → 0 < count
    → kernel ≤ 2 ^ 31
    → at + i < 2 ^ 31
    → neighbour kernel count at i ≡ pos (nearest count (kernel / 2) (at + i))
unfolding neighbour
neighbour-nearest kernel count at i h k b = ground (arith, h, k, b)

pub nearest_lt : (count half i : ℕ) → 0 < count → nearest count half i < count
nearest_lt count half i h = ground (arith, h)

pub area_bound : (w ht : ℕ) → 3 * w < 2 ^ 31 → ht < 2 ^ 31 → ht * (3 * w) < 2 ^ 63
area_bound w ht bw bh = omega (
  arith,
  mul-le-mul {n₁ = ht} {m₁ = 3 * w} {n₂ = 2 ^ 31} {m₂ = 2 ^ 31} (omega (arith, bh))
      (omega (arith, bw)),
)

pub pixel_offset_lem :
    (w ht sy sx : ℕ)
    → 3 * w < 2 ^ 31
    → ht < 2 ^ 31
    → sy < ht
    → sx < w
    → pixel_offset (3 * w) (pos sy) (pos sx) ≡ pos (sy * (3 * w) + sx * 3)
unfolding pixel_offset
pixel_offset_lem w ht sy sx bw bh hy hx =
    rw
      (
        row_start_lem (3 * w) ht sy (omega (arith, bh)) (area_bound w ht bw bh) hy,
        wrap_int_lem (sx * 3) (omega (arith, bw, hx)),
      )
      refl

-- The offset of a pixel's three bytes in an RGB image of `ht` rows of `w` pixels.
abbrev pub InImage : ℕ → ℕ → ℤ → Type 0
InImage w ht offset = (at : ℕ) × (offset ≡ pos at) × (at + 2 < ht * (3 * w))

-- In an RGB image of `ht` rows of `w` pixels, where the bytes of a row and the sides with the kernel
-- added are within an int: for every pixel and every place of the kernel, the three bytes that the box
-- blur reads lie inside the image, not before it and not after it.
pub pixel_offset-neighbour :
    (kernel w ht y x i j : ℕ)
    → 3 * w < 2 ^ 31
    → w + kernel ≤ 2 ^ 31
    → ht + kernel ≤ 2 ^ 31
    → y < ht
    → x < w
    → i < kernel
    → j < kernel
    → InImage w ht (pixel_offset (3 * w) (neighbour kernel ht y i) (neighbour kernel w x j))
pixel_offset-neighbour kernel w ht y x i j bw kw kh hy hx hi hj = (
  sy * (3 * w) + sx * 3,
  rw
      (
        neighbour-nearest kernel ht y i (omega (arith, hy)) (omega (arith, kh))
            (omega (arith, kh, hy, hi)),
        neighbour-nearest kernel w x j (omega (arith, hx)) (omega (arith, kw))
            (omega (arith, kw, hx, hj)),
      )
      (pixel_offset_lem w ht sy sx bw (omega (arith, kh, hi)) in_y in_x),
  within (3 * w) w ht sy sx 2 (omega arith) in_y in_x (omega arith),
)
  where
    sy : ℕ
    sy = nearest ht (kernel / 2) (y + i)

    sx : ℕ
    sx = nearest w (kernel / 2) (x + j)

    in_y : sy < ht
    in_y = nearest_lt ht (kernel / 2) (y + i) (omega (arith, hy))

    in_x : sx < w
    in_x = nearest_lt w (kernel / 2) (x + j) (omega (arith, hx))

sum_le : (f : ℕ → ℕ) (bound n : ℕ) → ((i : ℕ) → f i ≤ bound) → sum f n ≤ n * bound
unfolding sum
sum_le f bound zero h = omega arith
sum_le f bound (suc n) h = omega (arith, sum_le f bound n h, h n)

-- As long as the sum of bytes fits an int, the loop computes it.
row_sum :
    (f : ℕ → ℕ) (n a : ℕ)
    → ((i : ℕ) → f i ≤ 255)
    → a + n * 255 < 2 ^ 31
    → accumulate (λ kx acc. to_int (advance (f kx) acc)) n (pos a) ≡ pos (a + sum f n)
unfolding accumulate sum
row_sum f zero a h b = ap pos (omega arith)
row_sum f (suc n) a h b =
    ap (λ acc. to_int (advance (f n) acc)) (row_sum f n a h (omega (arith, b)))
    ∙ wrap_int_lem (f n + (a + sum f n)) (omega (arith, b, h n, sum_le f 255 n h))
    ∙ ap pos (omega arith)

rows_sum :
    (colour : ℕ → ℕ → ℕ) (kernel n : ℕ)
    → ((ky kx : ℕ) → colour ky kx ≤ 255)
    → n * (kernel * 255) < 2 ^ 31
    → accumulate (λ ky. accumulate (λ kx acc. to_int (advance (colour ky kx) acc)) kernel) n (pos 0)
      ≡ pos (sum (λ ky. sum (colour ky) kernel) n)
unfolding accumulate sum
rows_sum colour kernel zero h b = refl
rows_sum colour kernel (suc n) h b =
    ap (λ acc. accumulate (λ kx acc'. to_int (advance (colour n kx) acc')) kernel acc)
      (rows_sum colour kernel n h (omega (arith, b)))
    ∙ row_sum (colour n) kernel _ (h n) (
        omega (
          arith,
          b,
          sum_le (λ ky. sum (colour ky) kernel) (kernel * 255) n
              (λ ky. sum_le (colour ky) 255 kernel (h ky)),
        ))

-- The loops read no value behind the kernel.
accumulate-cong :
    (f g : ℕ → ℤ → ℤ) (n : ℕ) (acc : ℤ)
    → ((i : ℕ) (a : ℤ) → i < n → f i a ≡ g i a)
    → accumulate f n acc ≡ accumulate g n acc
unfolding accumulate
accumulate-cong f g zero acc h = refl
accumulate-cong f g (suc n) acc h =
    h n (accumulate f n acc) (omega arith)
    ∙ ap (g n) (accumulate-cong f g n acc (λ i a lt. h i a (omega (arith, lt))))

pub window_average-cong :
    (f g : ℕ → ℕ → ℕ) (kernel : ℕ)
    → ((i j : ℕ) → i < kernel → j < kernel → f i j ≡ g i j)
    → window_average f kernel ≡ window_average g kernel
unfolding window_average window_sum
window_average-cong f g kernel h =
    ap (λ total. to_byte (div_int total (wrap_int (kernel * kernel))))
      (accumulate-cong _ _ kernel (pos 0) (λ i a hi.
        accumulate-cong _ _ kernel a (λ j b hj. ap (λ v. to_int (advance v b)) (h i j hi hj))))

kernel_area : (kernel : ℕ) → kernel ≤ 2901 → kernel * kernel ≤ 2901 * 2901
kernel_area kernel h = mul-le-mul {n₁ = kernel} {m₁ = kernel} {n₂ = 2901} {m₂ = 2901} h h

-- With a kernel whose sums fit an int, the average is that of the kernel's values.
pub window_average_lem :
    (colour : ℕ → ℕ → ℕ) (kernel : ℕ)
    → kernel ≤ 2901
    → ((ky kx : ℕ) → colour ky kx ≤ 255)
    → window_average colour kernel ≡ sum (λ ky. sum (colour ky) kernel) kernel / (kernel * kernel)
unfolding window_average window_sum div_int
window_average_lem colour kernel k h =
    rw
      (
        rows_sum colour kernel kernel h (omega (arith, kernel_area kernel k)),
        wrap_int_lem (kernel * kernel) (omega (arith, kernel_area kernel k)),
      )
      (small_byte _ (div-le_of_le-mul (kernel * kernel) (rw (mul_assoc kernel kernel 255) total)))
  where
    small_byte : (n : ℕ) → n ≤ 255 → n % 256 ≡ n
    small_byte n b = omega (arith, b)

    total : sum (λ ky. sum (colour ky) kernel) kernel ≤ kernel * (kernel * 255)
    total =
        sum_le (λ ky. sum (colour ky) kernel) (kernel * 255) kernel
          (λ ky. sum_le (colour ky) 255 kernel (h ky))
