-- ===== src/Config/OutputPath.antt =====
-- pipeline/pipeline_config.c: the extension that `--output-format` gives the output path.
-- The path is the list of its character codes before the terminating zero.
pub mod Replace
use video_compute_pipeline.Prelude.{
  ℕ, zero, suc, ◌+◌, ◌<◌, ◌≤◌, ◌≡◌, refl, ap, sym, ◌∙◌, ◌⊎◌, inl, inr, Bool, true, false, ◌||◌,
  Option, none, some, List, [], ◌∷◌, ◌++◌, length, length-append, leb, ltb, ◌==◌, if◌then◌else◌,
  if_cases, if_ind, arith,
}
use video_compute_pipeline.Prelude.Text.{last_index, comes_before, first}
use video_compute_pipeline.Prelude.Int.{ℤ, success, failure}
use video_compute_pipeline.Config.Names.{OutputFormat, output_auto, output_mp4, output_mkv}

-- VCP_MAX_PATH_LENGTH.
abbrev pub max_path_length : ℕ
max_path_length = 1024

abbrev pub extension_of : OutputFormat → List ℕ
extension_of output_mkv = b'.' ∷ b'm' ∷ b'k' ∷ b'v' ∷ []
extension_of f = b'.' ∷ b'm' ∷ b'p' ∷ b'4' ∷ []

-- Where the extension of the path starts, given its last dot.
unfoldable pub stem_length : List ℕ → Option ℕ → ℕ
unfolding last_index
stem_length path none = length path
stem_length path (some dot) =
    if comes_before dot (last_index b'/' path) || comes_before dot (last_index b'\\' path)
    then length path
    else dot

unfoldable pub apply_extension : OutputFormat → List ℕ → List ℕ × ℤ
unfolding stem_length
apply_extension f path =
    let extension = extension_of f in
    let prefix_len = stem_length path (last_index b'.' path) in
    if leb max_path_length (prefix_len + length extension)
    then (path, failure)
    else (first prefix_len path ++ extension, success)

unfoldable pub apply_output_format_extension : OutputFormat → List ℕ → List ℕ × ℤ
unfolding apply_extension
apply_output_format_extension output_auto path = (path, success)
apply_output_format_extension f path = apply_extension f path
