-- ===== src/Yolo/Fits.antt =====
-- inference/yolo_postprocess.cpp: the shapes that `parse_output_shape` accepts fit the output.
use video_compute_pipeline.Prelude.{
  ℕ, ◌*◌, ◌/◌, ◌≤◌, ◌≡◌, refl, Bool, true, false, ◌||◌, ◌&&◌, ◌⊎◌, inl, inr, Option, none, some,
  List, length, arith, leb, ltb, ◌==◌, if◌then◌else◌,
}
use video_compute_pipeline.Prelude.Int.{ℤ, pos, pos_part, eq_ℤ, eq_ℤ_iff}
use video_compute_pipeline.ExecutionPlan.Profile.{wrap_int}
use video_compute_pipeline.Yolo.Scores.{Shape, parse_output_shape, shape_of, dim_back}

wrap_int-le : (n : ℕ) → pos_part (wrap_int n) ≤ n
wrap_int-le n = ground arith

div_mul_le : (n a p : ℕ) → p ≤ n / a → a * p ≤ n
div_mul_le n a p h = grind arith

abbrev pub Inside : ℕ → ℕ → Shape → Type 0
Inside n x s = (s.attributes ≡ x) × (s.attributes * s.prediction_count ≤ n)

row_shape : (n x : ℕ) (s : Shape) → shape_of (wrap_int (n / x)) false x ≡ some s → Inside n x s
row_shape n x s e =
    ground (arith, wrap_int-le (n / x), div_mul_le n x (pos_part (wrap_int (n / x))))

column_shape :
    (n x : ℕ) (d1 d2 : ℤ) (s : Shape)
    → pos_part d2 * pos_part d1 ≤ n
    → eq_ℤ d2 (pos x) ≡ true
    → shape_of d1 true x ≡ some s
    → Inside n x s
column_shape n x d1 d2 s h e g = ground (arith, rw ((eq_ℤ_iff d2 (pos x)).0 e) at h)

abbrev pub Fitting : (a alt n : ℕ) → Option Shape → Type 0
Fitting a alt n o = (s : Shape) → o ≡ some s → Inside n a s ⊎ Inside n alt s

nothing : (a alt n : ℕ) → Fitting a alt n none
nothing a alt n s e = cc

both_hold : (b c : Bool) → (b && c) ≡ true → c ≡ true
both_hold b c h = ground arith

-- The branches of `parse_output_shape`, each with its test.
by_test :
    (P : Option Shape → Type 0) (b1 b2 b3 b4 b5 : Bool) (s2 s3 s4 s5 : Option Shape)
    → P none
    → (b2 ≡ true → P s2)
    → (b3 ≡ true → P s3)
    → (b4 ≡ true → P s4)
    → (b5 ≡ true → P s5)
    → P (
        if b1
        then none
        else if b2
        then s2
        else if b3
        then s3
        else if b4
        then s4
        else if b5
        then s5
        else none)
by_test P true b2 b3 b4 b5 s2 s3 s4 s5 p h2 h3 h4 h5 = p
by_test P false true b3 b4 b5 s2 s3 s4 s5 p h2 h3 h4 h5 = h2 refl
by_test P false false true b4 b5 s2 s3 s4 s5 p h2 h3 h4 h5 = h3 refl
by_test P false false false true b5 s2 s3 s4 s5 p h2 h3 h4 h5 = h4 refl
by_test P false false false false true s2 s3 s4 s5 p h2 h3 h4 h5 = h5 refl
by_test P false false false false false s2 s3 s4 s5 p h2 h3 h4 h5 = p

pub parse_output_shape-Fitting :
    (dims : List ℤ) (a alt n : ℕ)
    → pos_part (dim_back dims 2) * pos_part (dim_back dims 1) ≤ n
    → Fitting a alt n (parse_output_shape dims a alt n)
unfolding parse_output_shape
parse_output_shape-Fitting dims a alt n h =
    by_test (Fitting a alt n) (length dims == 0 || (a == 0 || n == 0))
      (eq_ℤ (dim_back dims 1) (pos a)) (leb 2 (length dims) && eq_ℤ (dim_back dims 2) (pos a))
      (ltb 0 alt && eq_ℤ (dim_back dims 1) (pos alt))
      (ltb 0 alt && (leb 2 (length dims) && eq_ℤ (dim_back dims 2) (pos alt)))
      (shape_of (wrap_int (n / a)) false a) (shape_of (dim_back dims 1) true a)
      (shape_of (wrap_int (n / alt)) false alt) (shape_of (dim_back dims 1) true alt)
      (nothing a alt n) (λ e s g. inl (row_shape n a s g))
      (λ e s g. inl (
        column_shape n a (dim_back dims 1) (dim_back dims 2) s h
          (both_hold (leb 2 (length dims)) (eq_ℤ (dim_back dims 2) (pos a)) e) g))
      (λ e s g. inr (row_shape n alt s g))
      (λ e s g. inr (
        column_shape n alt (dim_back dims 1) (dim_back dims 2) s h
          (both_hold (leb 2 (length dims)) (eq_ℤ (dim_back dims 2) (pos alt))
            (both_hold (ltb 0 alt) (leb 2 (length dims) && eq_ℤ (dim_back dims 2) (pos alt)) e))
          g))
