-- ===== src/Config/Args/Accepted.antt =====
-- pipeline/pipeline_config.c: what holds of the configuration of an accepted command line.
use Prim.Native.String.{String}
use video_compute_pipeline.Prelude.{
  ℕ, ◌≡◌, ◌≤◌, refl, ◌∙◌, subst, ◌⊎◌, inl, inr, Bool, true, false, not, ◌&&◌, Option, none, some,
  List, [], ◌∷◌, ltb, leb, if_ind, if_cases, arith,
}
use video_compute_pipeline.Prelude.Int.{eq_ℤ, eq_ℤ_iff, success}
use video_compute_pipeline.Backend.{inference_runtime_validate_model_path}
use video_compute_pipeline.Backend.Path.{Accepts, inference_runtime_validate_model_path-Accepts}
use video_compute_pipeline.Config.OutputPath.{apply_output_format_extension}
use video_compute_pipeline.Config.Names.{PipelineTask, task_filter, task_detect}
use video_compute_pipeline.Config.Settings.{PipelineConfig, pipeline_config_default}
use video_compute_pipeline.Config.Args.{
  is_detect, Platform, Step, unknown_option, bad_option, flag_taken, value_taken, loads_model,
  with_output_path,
}
use video_compute_pipeline.Config.Args.Parse.{
  parse_option, parse_options, head, resume, finish, finished, pipeline_config_parse_args,
}
use video_compute_pipeline.Config.Args.Words.{May, Keeps, or_else_lem, set_list_lem, passes_test}
use video_compute_pipeline.Config.Args.Valid.{IsConfig, InUnit}
use video_compute_pipeline.Config.Args.Valid.Paths.{
  file_options_lem, threshold_options_lem, backend_options_lem, output_options_lem,
}
use video_compute_pipeline.Config.Args.Valid.Counts.{
  count_options_lem, memory_options_lem, decoder_options_lem, batch_options_lem,
}

none_of :
    {A : Type 0} (task : PipelineTask) (l m : Bool)
    → ((is_detect task && not l) && not m) ≡ false
    → (is_detect task ≡ false) ⊎ ((l ≡ true) ⊎ ((m ≡ true) ⊎ A))
none_of task_filter l m h = inl refl
none_of task_detect true m h = inr (inl refl)
none_of task_detect false true h = inr (inr (inl refl))
none_of task_detect false false h = cc

module _ {F : Type 0} (c : Platform F) where
  abbrev K : PipelineConfig F → Type 0
  K = IsConfig c

  -- Whatever the option is, and whatever is given for it, a configuration that is within its ranges
  -- stays so.
  parse_option-IsConfig :
      (config : PipelineConfig F) (arg : String) (given : Option String)
      → IsConfig c config
      → Keeps K (parse_option c config arg given)
  unfolding parse_option
  parse_option-IsConfig config arg given v =
      or_else_lem K _ _ (file_options_lem c config arg given v) (
        or_else_lem K _ _ (threshold_options_lem c config arg given v) (
          or_else_lem K _ _ (backend_options_lem c config arg given v) (
            or_else_lem K _ _ (output_options_lem c config arg given v) (
              or_else_lem K _ _ (count_options_lem c config arg given v) (
                or_else_lem K _ _ (memory_options_lem c config arg given v) (
                  or_else_lem K _ _ (decoder_options_lem c config arg given v)
                    (batch_options_lem c config arg given v)))))))

  resume_lem :
      (s : Step F) (next : PipelineConfig F → Bool → Option (PipelineConfig F))
      → Keeps K s
      → ((config : PipelineConfig F) (skip : Bool) → IsConfig c config → May K (next config skip))
      → May K (resume c s next)
  resume_lem unknown_option next v h = tt
  resume_lem bad_option next v h = tt
  resume_lem (flag_taken config) next v h = h config false v
  resume_lem (value_taken config) next v h = h config true v

  parse_options_lem :
      (args : List String) (config : PipelineConfig F) (skip : Bool)
      → IsConfig c config
      → May K (parse_options c config skip args)
  unfolding parse_options
  parse_options_lem [] config skip v = v
  parse_options_lem (arg ∷ args) config true v = parse_options_lem args config false v
  parse_options_lem (arg ∷ args) config false v =
      resume_lem (parse_option c config arg (head c args)) _
        (parse_option-IsConfig config arg (head c args) v)
        (λ config' skip h. parse_options_lem args config' skip h)

  extended_lem :
      (config : PipelineConfig F)
      → IsConfig c config
      → May K (
          with_output_path config
            (apply_output_format_extension config.output_format config.output_path))
  extended_lem config v =
      set_list_lem K (apply_output_format_extension config.output_format config.output_path)
        (λ path. record config { output_path = path }) v

  finish_lem : (config : PipelineConfig F) → IsConfig c config → May K (finish c config)
  unfolding finish
  finish_lem config v =
      if_ind (May K) (loads_model config)
        (if_ind (May K)
          (not (
            eq_ℤ (inference_runtime_validate_model_path c.tolower config.runtime config.model_path)
              success))
          tt (extended_lem config v))
        (extended_lem config v)

  finished_lem : (o : Option (PipelineConfig F)) → May K o → May K (finished c o)
  finished_lem none h = tt
  finished_lem (some config) h = finish_lem config h

  -- Whatever the arguments are, and whatever `strtol` and `strtof` make of them: if
  -- `pipeline_config_parse_args` accepts them, from a configuration whose fields are within the
  -- ranges that the messages name, then the new one is within them too. Of the thresholds this
  -- says that none is below 0 or above 1, of the ratio that it is not 0 or less nor above 1, and
  -- of the rate that it is not below 0, which a NaN, too, satisfies.
  pub pipeline_config_parse_args-IsConfig :
      (config : PipelineConfig F) (args : List String) (result : PipelineConfig F)
      → IsConfig c config
      → pipeline_config_parse_args c config args ≡ some result
      → IsConfig c result
  unfolding pipeline_config_parse_args
  pipeline_config_parse_args-IsConfig config args result v e =
      subst (May K) e
        (finished_lem (parse_options c config false args) (parse_options_lem args config false v))

  -- The defaults are within those ranges, if the machine's floats of 0, 0.25, 0.375, 0.45 and 1 are in
  -- order.
  pub pipeline_config_default-IsConfig :
      ((m n : ℕ) → m ≤ 1000 → n ≤ 1000 → c.less (c.thousandths m) (c.thousandths n) ≡ ltb m n)
      → ((m n : ℕ) → m ≤ 1000 → n ≤ 1000 → c.less_eq (c.thousandths m) (c.thousandths n) ≡ leb m n)
      → IsConfig c (pipeline_config_default c.thousandths)
  unfolding pipeline_config_default
  pipeline_config_default-IsConfig lt le = (
    (refl, refl, refl, refl, refl),
    (refl, refl, refl, refl),
    (refl, refl, refl),
    (refl, refl, refl),
    (
      thousandths-InUnit 250 (omega arith),
      thousandths-InUnit 450 (omega arith),
      thousandths-InUnit 0 (omega arith),
      lt 0 0 (omega arith) (omega arith),
      (le 375 0 (omega arith) (omega arith), lt 1000 375 (omega arith) (omega arith)),
    ),
    (inl refl, inl refl, inr (inr (inl refl))),
    record { fits = omega arith; no_negative = tt; distinct = tt },
  )
    where
      thousandths-InUnit : (n : ℕ) → n ≤ 1000 → InUnit c (c.thousandths n)
      thousandths-InUnit n h =
          (lt n 0 h (omega arith) ∙ ground arith, lt 1000 n (omega arith) h ∙ ground arith)

  -- The run does not load a model, or its model path is accepted for its runtime.
  abbrev Checked : PipelineConfig F → Type 0
  Checked config = (loads_model config ≡ false) ⊎ Accepts c.tolower config.runtime config.model_path

  extended-Checked :
      (config : PipelineConfig F)
      → Checked config
      → May Checked (
          with_output_path config
            (apply_output_format_extension config.output_format config.output_path))
  extended-Checked config v =
      set_list_lem Checked (apply_output_format_extension config.output_format config.output_path)
        (λ path. record config { output_path = path }) v

  accepted :
      (config : PipelineConfig F)
      → not (
          eq_ℤ
            (inference_runtime_validate_model_path c.tolower config.runtime config.model_path)
            success)
        ≡ false
      → Checked config
  accepted config h = inr (
      (inference_runtime_validate_model_path-Accepts c.tolower config.runtime config.model_path).0
        ((eq_ℤ_iff _ success).0 (passes_test _ h)))

  finish-Checked : (config : PipelineConfig F) → May Checked (finish c config)
  unfolding finish
  finish-Checked config =
      if_cases (May Checked) (loads_model config)
        (λ _.
          if_cases (May Checked)
            (not (
              eq_ℤ
                (inference_runtime_validate_model_path c.tolower config.runtime config.model_path)
                success))
            (λ _. tt) (λ h. extended-Checked config (accepted config h)))
        (λ h. extended-Checked config (inl h))

  finished-Checked : (o : Option (PipelineConfig F)) → May Checked (finished c o)
  finished-Checked none = tt
  finished-Checked (some config) = finish-Checked config

  no_model :
      (config : PipelineConfig F)
      → loads_model config ≡ false
      → (is_detect config.task ≡ false)
        ⊎ ((config.list_backends ≡ true)
            ⊎ ((config.model_info ≡ true) ⊎ Accepts c.tolower config.runtime config.model_path))
  no_model config h = none_of config.task config.list_backends config.model_info h

  -- If `pipeline_config_parse_args` accepts a command line, from whatever configuration, then the run
  -- is not a detection run, or only lists the backends or the model, or the extension of its model path selects a runtime, and the run asks for
  -- that one or for any.
  pub pipeline_config_parse_args-Accepts :
      (config : PipelineConfig F) (args : List String) (result : PipelineConfig F)
      → pipeline_config_parse_args c config args ≡ some result
      → (is_detect result.task ≡ false)
        ⊎ ((result.list_backends ≡ true)
            ⊎ ((result.model_info ≡ true) ⊎ Accepts c.tolower result.runtime result.model_path))
  unfolding pipeline_config_parse_args
  pipeline_config_parse_args-Accepts config args result e =
      elim (subst (May Checked) e (finished-Checked (parse_options c config false args))) [
        | inl h ↦ no_model result h
        | inr h ↦ inr (inr (inr h))
      ]
