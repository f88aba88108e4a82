-- ===== src/Config/ClassFilter/Distinct.antt =====
-- pipeline/pipeline_config.c: the class ids stay within their array, different and not negative.
use video_compute_pipeline.Prelude.{
  ℕ, suc, ◌≤◌, ◌≡◌, ◌≢◌, false, not, ◌||◌, Option, none, some, List, [], ◌∷◌, ◌++◌, length,
  length-append, All, All-append, arith, leb, ◌==◌, if_cases, if_ind, Bool-cases, inl, inr,
}
use video_compute_pipeline.Prelude.Text.{is_nil}
use video_compute_pipeline.Prelude.Pairs.{Pairs, Pairs-append_one}
use video_compute_pipeline.Prelude.Int.{ℤ, is_neg, eq_ℤ, eq_ℤ_iff, success}
use video_compute_pipeline.Config.ClassFilter.{
  max_class_filters, contains, add_class_filter_id, trim_span, parse_int_value, add_parsed,
  add_token, id_list, parse_class_id_list,
}

-- No id occurs twice.
abbrev Distinct : List ℤ → Type 0
Distinct ids = Pairs (λ x y. x ≢ y) ids

pub record IsFilter (ids : List ℤ) : Type 0 where
  pub fits : length ids ≤ max_class_filters
  pub no_negative : All (λ id. is_neg id ≡ false) ids
  pub distinct : Distinct ids

-- An id that the loop does not find differs from every id of the list.
contains-All : (ids : List ℤ) (id : ℤ) → contains ids id ≡ false → All (λ x. x ≢ id) ids
unfolding contains
contains-All [] id h = tt
contains-All (x ∷ ids) id h = elim (Bool-cases (eq_ℤ x id)) [
  | inl same ↦ cc (simp same at h)
  | inr other ↦ (λ e. cc ((eq_ℤ_iff x id).1 e, other), contains-All ids id (simp other at h))
]

add-IsFilter : (ids : List ℤ) (id : ℤ) → IsFilter ids → IsFilter (add_class_filter_id ids id).0
unfolding add_class_filter_id
add-IsFilter ids id v =
    if_cases P (is_neg id) (λ _. v)
      (λ no_sign.
        if_cases P (contains ids id) (λ _. v)
          (λ absent.
            if_cases P (leb max_class_filters (length ids)) (λ _. v)
              (λ room. record {
                fits = omega (arith, length-append ids (id ∷ []), less room);
                no_negative =
                    All-append (λ id. is_neg id ≡ false) ids (id ∷ []) v.no_negative (no_sign, tt);
                distinct =
                    Pairs-append_one (λ x y. x ≢ y) ids id v.distinct (contains-All ids id absent);
              })))
  where
    P : List ℤ × ℤ → Type 0
    P r = IsFilter r.0

    less : leb max_class_filters (length ids) ≡ false → suc (length ids) ≤ max_class_filters
    less e = ground (arith, e)

module _ (strtol : List ℕ → ℤ × List ℕ × ℤ) where
  add_parsed-IsFilter :
      (ids : List ℤ) (o : Option ℤ) → IsFilter ids → IsFilter (add_parsed strtol ids o).0
  unfolding add_parsed
  add_parsed-IsFilter ids none v = v
  add_parsed-IsFilter ids (some id) v = add-IsFilter ids id v

  add_token-IsFilter :
      (ids : List ℤ) (token : List ℕ) → IsFilter ids → IsFilter (add_token strtol ids token).0
  unfolding add_token
  add_token-IsFilter ids token v =
      if_ind (λ (r : List ℤ × ℤ). IsFilter r.0)
        ((length (trim_span token) == 0) || leb 32 (length (trim_span token))) v
        (add_parsed-IsFilter ids (parse_int_value strtol (trim_span token)) v)

  id_list-IsFilter :
      (rest : List ℕ) (ids : List ℤ) (token : List ℕ)
      → IsFilter ids
      → IsFilter (id_list strtol ids token rest).0
  unfolding id_list
  id_list-IsFilter [] ids token v = add_token-IsFilter ids token v
  id_list-IsFilter (c ∷ rest) ids token v =
      if_ind P (c == b',')
        (if_ind P (not (eq_ℤ (add_token strtol ids token).1 success))
          (add_token-IsFilter ids token v)
          (id_list-IsFilter rest (add_token strtol ids token).0 []
            (add_token-IsFilter ids token v)))
        (id_list-IsFilter rest ids (token ++ (c ∷ [])) v)
    where
      P : List ℤ × ℤ → Type 0
      P r = IsFilter r.0

  -- Whatever the text is and whatever `strtol` makes of it, `parse_class_id_list` keeps the ids
  -- within their array, different from each other and not negative.
  pub parse_class_id_list-IsFilter :
      (ids : List ℤ) (value : List ℕ)
      → IsFilter ids
      → IsFilter (parse_class_id_list strtol ids value).0
  unfolding parse_class_id_list
  parse_class_id_list-IsFilter ids value v =
      if_ind (λ (r : List ℤ × ℤ). IsFilter r.0) (is_nil value) v (id_list-IsFilter value ids [] v)
