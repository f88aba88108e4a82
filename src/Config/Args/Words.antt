-- ===== src/Config/Args/Words.antt =====
-- pipeline/pipeline_config.c: the words that `--precision`, `--encoder` and `--ffmpeg-log-level` take,
-- and what a setter of pipeline_config_parse_args keeps.
use Prim.Native.String.{String}
use text.Mathlib.Text.{◌==◌}
use text.Mathlib.TextEquality.{eq_iff}
use video_compute_pipeline.Prelude.{
  ℕ, ◌≡◌, refl, ap, subst, Bool, true, false, not, ◌||◌, ◌⊎◌, inl, inr, Option, none, some, List,
  Bool-cases, leb, length, if_ind, if_cases,
}
use video_compute_pipeline.Prelude.Text.{codes}
use video_compute_pipeline.Prelude.Int.{ℤ, eq_ℤ, success, is_pos}
use video_compute_pipeline.Config.Names.{parse_ffmpeg_log_level}
use video_compute_pipeline.Config.ClassFilter.{parse_int_value}
use video_compute_pipeline.Config.Settings.{PipelineConfig, BatchSettingMode, copy_path}
use video_compute_pipeline.Config.Args.{
  Platform, Step, unknown_option, bad_option, flag_taken, value_taken, known_precision,
  known_encoder, taken, require_value, or_else, set_to, set_checked, set_list, set_text,
  parse_batch_setting, manual_batch,
}

abbrev pub IsPrecision : List ℕ → Type 0
IsPrecision t = (t ≡ codes "fp16") ⊎ (t ≡ codes "fp32")

abbrev pub IsEncoder : List ℕ → Type 0
IsEncoder t =
    (t ≡ codes "libx264")
    ⊎ ((t ≡ codes "libx264rgb") ⊎ ((t ≡ codes "h264_nvenc") ⊎ (t ≡ codes "mpeg4")))

abbrev pub IsLogLevel : List ℕ → Type 0
IsLogLevel t =
    (t ≡ codes "quiet")
    ⊎ ((t ≡ codes "error") ⊎ ((t ≡ codes "warning") ⊎ ((t ≡ codes "info") ⊎ (t ≡ codes "debug"))))

module _ {Q : Type 0} (value : String) where
  -- One word of a chain of tests.
  or_word :
      (w : String) {b : Bool} → ((value ≡ w) → Q) → (b ≡ true → Q) → ((value == w) || b) ≡ true → Q
  or_word w here later h = elim (Bool-cases (value == w)) [
    | inl e ↦ here ((eq_iff value w).0 e)
    | inr e ↦ later (simp e at h)
  ]

  last_word : (w : String) → ((value ≡ w) → Q) → (value == w) ≡ true → Q
  last_word w here h = here ((eq_iff value w).0 h)

pub known_precision-IsPrecision :
    (value : String) → known_precision value ≡ true → IsPrecision (codes value)
known_precision-IsPrecision value h =
    or_word value "fp16" (λ e. inl (ap codes e)) (last_word value "fp32" (λ e. inr (ap codes e))) h

pub known_encoder-IsEncoder :
    (value : String) → known_encoder value ≡ true → IsEncoder (codes value)
known_encoder-IsEncoder value h =
    or_word value "libx264" (λ e. inl (ap codes e))
      (or_word value "libx264rgb" (λ e. inr (inl (ap codes e)))
        (or_word value "h264_nvenc" (λ e. inr (inr (inl (ap codes e))))
          (last_word value "mpeg4" (λ e. inr (inr (inr (ap codes e)))))))
      h

pub parse_ffmpeg_log_level-IsLogLevel :
    (value : String) → parse_ffmpeg_log_level value ≡ true → IsLogLevel (codes value)
unfolding parse_ffmpeg_log_level
parse_ffmpeg_log_level-IsLogLevel value h =
    or_word value "quiet" (λ e. inl (ap codes e))
      (or_word value "error" (λ e. inr (inl (ap codes e)))
        (or_word value "warning" (λ e. inr (inr (inl (ap codes e))))
          (or_word value "info" (λ e. inr (inr (inr (inl (ap codes e)))))
            (last_word value "debug" (λ e. inr (inr (inr (inr (ap codes e)))))))))
      h

module _ {F : Type 0} (P : PipelineConfig F → Type 0) where
  -- The configuration has the property, if there is one.
  abbrev pub May : Option (PipelineConfig F) → Type 0
  May none = Unit
  May (some config) = P config

  abbrev pub Keeps : Step F → Type 0
  Keeps unknown_option = Unit
  Keeps bad_option = Unit
  Keeps (flag_taken config) = P config
  Keeps (value_taken config) = P config

  taken_lem : (o : Option (PipelineConfig F)) → May o → Keeps (taken o)
  taken_lem none h = tt
  taken_lem (some config) h = h

  pub require_value_lem :
      (given : Option String) (set : String → Option (PipelineConfig F))
      → ((value : String) → May (set value))
      → Keeps (require_value given set)
  require_value_lem none set h = tt
  require_value_lem (some value) set h = taken_lem (set value) (h value)

  pub or_else_lem : (a b : Step F) → Keeps a → Keeps b → Keeps (or_else a b)
  or_else_lem unknown_option b ha hb = hb
  or_else_lem bad_option b ha hb = ha
  or_else_lem (flag_taken config) b ha hb = ha
  or_else_lem (value_taken config) b ha hb = ha

  module _ {A : Type 0} where
    pub set_to_lem :
        (o : Option A) (set : A → PipelineConfig F)
        → ((a : A) → o ≡ some a → P (set a))
        → May (set_to o set)
    set_to_lem none set h = tt
    set_to_lem (some a) set h = h a refl

    pub set_checked_lem :
        (o : Option A) (bad : A → Bool) (set : A → PipelineConfig F)
        → ((a : A) → bad a ≡ false → P (set a))
        → May (set_checked o bad set)
    set_checked_lem none bad set h = tt
    set_checked_lem (some a) bad set h = if_cases May (bad a) (λ _. tt) (h a)

    pub set_list_lem :
        (r : List A × ℤ) (set : List A → PipelineConfig F) → P (set r.0) → May (set_list r set)
    set_list_lem r set h = if_ind May (not (eq_ℤ r.1 success)) tt h

  pub set_text_lem :
      (size : ℕ) (value : String) (set : List ℕ → PipelineConfig F)
      → P (set (codes value))
      → May (set_text size value set)
  unfolding set_text copy_path
  set_text_lem size value set h =
      if_ind (λ (r : List ℕ × ℤ). May (set_list r set)) (leb size (length (codes value))) tt h

pub passes_test : (b : Bool) → not b ≡ false → b ≡ true
passes_test true h = refl
passes_test false h = cc

module _ {F : Type 0} (c : Platform F) where
  -- A batch setting is a positive number.
  abbrev IsSetting : Option (BatchSettingMode × ℤ) → Type 0
  IsSetting none = Unit
  IsSetting (some r) = is_pos r.1 ≡ true

  manual_lem : (o : Option ℤ) → IsSetting (manual_batch c o)
  manual_lem none = tt
  manual_lem (some n) =
      if_cases IsSetting (not (is_pos n)) (λ _. tt) (λ e. passes_test (is_pos n) e)

  setting_lem : (value : String) → IsSetting (parse_batch_setting c value)
  unfolding parse_batch_setting
  setting_lem value =
      if_ind IsSetting (value == "auto") refl (manual_lem (parse_int_value c.strtol (codes value)))

  pub parse_batch_setting_lem :
      (value : String) (r : BatchSettingMode × ℤ)
      → parse_batch_setting c value ≡ some r
      → is_pos r.1 ≡ true
  parse_batch_setting_lem value r e = subst IsSetting e (setting_lem value)
