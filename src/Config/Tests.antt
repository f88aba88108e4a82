-- ===== src/Config/Tests.antt =====
-- Runs of the parsers of pipeline/pipeline_config.c.
use Prim.Native.String.{String}
use video_compute_pipeline.Prelude.{true, ◌++◌, ℕ, ◌-◌, ◌≡◌, ◌↔◌, refl, some, List, [], ◌∷◌, arith}
use video_compute_pipeline.Config.Settings.{pipeline_config_default, detection_requires_raw_upload}
use video_compute_pipeline.Config.OutputPath.{extension_of, apply_output_format_extension}
use video_compute_pipeline.Config.Names.{filter_blur_5x5, parse_filter, output_mkv}
use video_compute_pipeline.Prelude.Text.{codes}
use video_compute_pipeline.Prelude.Int.{ℤ, pos, success}
use video_compute_pipeline.Config.Exact.{parse_filter-filter_to_string}
use video_compute_pipeline.Config.ClassFilter.{parse_class_id_list, parse_class_name_list}
use video_compute_pipeline.Config.ClassFilter.Distinct.{IsFilter, parse_class_id_list-IsFilter}

-- A reader of one digit.
abbrev one_digit : List ℕ → ℤ × List ℕ × ℤ
one_digit [] = (pos 0, [], pos 0)
one_digit (c ∷ cs) = (pos (c - 48), cs, pos 0)

-- "3, 5,3".
some_ids :
    parse_class_id_list one_digit [] (51 ∷ 44 ∷ 32 ∷ 53 ∷ 44 ∷ 51 ∷ [])
    ≡ (pos 3 ∷ pos 5 ∷ [], success)
unfolding parse_class_id_list
some_ids = refl

-- "a, b,a".
some_names :
    parse_class_name_list [] (97 ∷ 44 ∷ 32 ∷ 98 ∷ 44 ∷ 97 ∷ [])
    ≡ ((97 ∷ []) ∷ (98 ∷ []) ∷ [], success)
unfolding parse_class_name_list
some_names = refl

parse_class_id_list-IsFilter_example :
    IsFilter (parse_class_id_list one_digit [] (51 ∷ 44 ∷ 32 ∷ 53 ∷ 44 ∷ 51 ∷ [])).0
parse_class_id_list-IsFilter_example =
    parse_class_id_list-IsFilter one_digit [] (51 ∷ 44 ∷ 32 ∷ 53 ∷ 44 ∷ 51 ∷ [])
      (record { fits = omega arith; no_negative = tt; distinct = tt })

parse_filter-filter_to_string_example :
    (parse_filter "blur5x5" ≡ some filter_blur_5x5) ↔ ◌≡◌ {A = String} "blur5x5" "blur5x5"
parse_filter-filter_to_string_example = parse_filter-filter_to_string "blur5x5" filter_blur_5x5

-- "a.b/c.mp4".
abbrev a_path : List ℕ
a_path = 97 ∷ 46 ∷ 98 ∷ 47 ∷ 99 ∷ []

-- Without an extension the new one is put at the end, after the dot of the folder.
no_extension :
    apply_output_format_extension output_mkv a_path ≡ (a_path ++ extension_of output_mkv, success)
unfolding apply_output_format_extension
no_extension = refl

-- The defaults fit their buffers, and the decoder and the backend are not on one device.
default_paths :
    (pipeline_config_default (λ n. n)).input_path ≡ codes "data/input/15592600_3840_2160_60fps.mp4"
unfolding pipeline_config_default
default_paths = refl

default_upload : detection_requires_raw_upload (pipeline_config_default (λ n. n)) ≡ true
unfolding pipeline_config_default detection_requires_raw_upload
default_upload = refl
