-- ===== src/Config/ClassFilter.antt =====
-- pipeline/pipeline_config.c: the lists of classes that `--class-ids` and `--class-names` give.
-- A text is the list of its character codes. `strtol` is the C library's: its value, the text that
-- it has not read, and errno. The array of ids with its count is the list of the ids that it holds.
pub mod Distinct
use video_compute_pipeline.Prelude.{
  ℕ, Bool, true, false, not, ◌&&◌, ◌||◌, Option, none, some, List, [], ◌∷◌, ◌++◌, length, ◌==◌, leb,
  if◌then◌else◌, ◌^◌, ◌-◌,
}
use video_compute_pipeline.Prelude.Text.{is_nil, text_eq}
use video_compute_pipeline.Prelude.Int.{ℤ, pos, negsuc, is_neg, eq_ℤ, ltb_ℤ, success, failure}

-- VCP_MAX_CLASS_FILTERS and VCP_MAX_CLASS_NAME_LENGTH.
abbrev pub max_class_filters : ℕ
max_class_filters = 128

abbrev pub max_class_name_length : ℕ
max_class_name_length = 64

-- A space, a tab, a carriage return or a newline.
abbrev is_blank : ℕ → Bool
is_blank c = (c == 32) || ((c == 9) || ((c == 13) || (c == 10)))

unfoldable pub trim_start : List ℕ → List ℕ
trim_start [] = []
trim_start (c ∷ cs) = let rest = trim_start cs in if is_blank c then rest else c ∷ cs

unfoldable pub trim_end : List ℕ → List ℕ
trim_end [] = []
trim_end (c ∷ cs) = let rest = trim_end cs in if is_blank c && is_nil rest then [] else c ∷ rest

unfoldable pub trim_span : List ℕ → List ℕ
unfolding trim_start trim_end
trim_span text = trim_end (trim_start text)

-- The loop of `add_class_filter_id`.
unfoldable pub contains : List ℤ → ℤ → Bool
contains [] id = false
contains (x ∷ ids) id = eq_ℤ x id || contains ids id

unfoldable pub add_class_filter_id : List ℤ → ℤ → List ℤ × ℤ
unfolding contains
add_class_filter_id ids class_id =
    if is_neg class_id
    then (ids, failure)
    else if contains ids class_id
    then (ids, success)
    else if leb max_class_filters (length ids)
    then (ids, failure)
    else (ids ++ (class_id ∷ []), success)

-- The loop of `add_class_filter_name`.
unfoldable pub has_name : List (List ℕ) → List ℕ → Bool
has_name [] name = false
has_name (n ∷ names) name = text_eq n name || has_name names name

unfoldable pub add_class_filter_name : List (List ℕ) → List ℕ → List (List ℕ) × ℤ
unfolding has_name trim_span
add_class_filter_name names span =
    let name = trim_span span in
    if length name == 0
    then (names, success)
    else if leb max_class_name_length (length name) || leb max_class_filters (length names)
    then (names, failure)
    else if has_name names name
    then (names, success)
    else (names ++ (name ∷ []), success)

-- The loop of `parse_class_name_list`: `token` is the text from the last comma to the cursor.
unfoldable pub name_list : List (List ℕ) → List ℕ → List ℕ → List (List ℕ) × ℤ
unfolding add_class_filter_name
name_list names token [] = add_class_filter_name names token
name_list names token (c ∷ rest) =
    let (names', result) = add_class_filter_name names token in
    let after = name_list names' [] rest in
    let within = name_list names (token ++ (c ∷ [])) rest in
    if c == b',' then (if not (eq_ℤ result success) then (names', failure) else after) else within

unfoldable pub parse_class_name_list : List (List ℕ) → List ℕ → List (List ℕ) × ℤ
unfolding name_list
parse_class_name_list names value =
    if is_nil value then (names, failure) else name_list names [] value

module _ (strtol : List ℕ → ℤ × List ℕ × ℤ) where
  unfoldable pub parse_int_value : List ℕ → Option ℤ
  parse_int_value value =
      let (parsed, end_text, errno) = strtol value in
      if not (eq_ℤ errno (pos 0))
        || ((length end_text == length value)
            || (not (is_nil end_text)
                || (ltb_ℤ parsed (negsuc (2 ^ 31 - 1)) || ltb_ℤ (pos (2 ^ 31 - 1)) parsed)))
      then none
      else some parsed

  add_parsed : List ℤ → Option ℤ → List ℤ × ℤ
  unfolding add_class_filter_id
  add_parsed ids none = (ids, failure)
  add_parsed ids (some id) = add_class_filter_id ids id

  -- What `parse_class_id_list` does with the text between two commas.
  unfoldable pub add_token : List ℤ → List ℕ → List ℤ × ℤ
  unfolding add_parsed trim_span parse_int_value
  add_token ids token =
      let text = trim_span token in
      if (length text == 0) || leb 32 (length text)
      then (ids, failure)
      else add_parsed ids (parse_int_value text)

  -- The loop of `parse_class_id_list`: `token` is the text from the last comma to the cursor.
  unfoldable pub id_list : List ℤ → List ℕ → List ℕ → List ℤ × ℤ
  unfolding add_token
  id_list ids token [] = add_token ids token
  id_list ids token (c ∷ rest) =
      let (ids', result) = add_token ids token in
      let after = id_list ids' [] rest in
      let within = id_list ids (token ++ (c ∷ [])) rest in
      if c == b',' then (if not (eq_ℤ result success) then (ids', failure) else after) else within

  unfoldable pub parse_class_id_list : List ℤ → List ℕ → List ℤ × ℤ
  unfolding id_list
  parse_class_id_list ids value = if is_nil value then (ids, failure) else id_list ids [] value
