-- ===== src/Backend/Path.antt =====
-- inference/backend_registry.c: the runtime that a model path selects, and which one is accepted.
use video_compute_pipeline.Prelude.{
  ℕ, ◌+◌, ◌≡◌, ◌≢◌, ◌↔◌, refl, ap, ◌∙◌, Bool, true, false, ◌⊎◌, none, some, List, [], ◌∷◌, ◌++◌,
  length, arith, if◌then◌else◌,
}
use video_compute_pipeline.Prelude.Int.{success, failure}
use video_compute_pipeline.Prelude.Text.{
  last_index, last_index-append, last_index-append_none, last_index_below, rest_from-append,
}
use video_compute_pipeline.Backend.{
  InferenceRuntime, runtime_auto, runtime_tensorrt, runtime_onnxruntime, runtime_torchscript,
  runtime_eq, extension_at, path_extension, inference_runtime_from_model_path,
  inference_runtime_validate_model_path,
}

-- An extension: a dot, and then neither a dot nor a separator.
pub record IsExtension (e : List ℕ) : Type 0 where
  pub dot : last_index b'.' e ≡ some 0
  pub no_slash : last_index b'/' e ≡ none
  pub no_backslash : last_index b'\\' e ≡ none

extension_at_end :
    (s e : List ℕ) (n : ℕ) → IsExtension e → n ≡ length s → extension_at (s ++ e) (some n) ≡ e
unfolding extension_at
extension_at_end s e n v at =
    rw
      (
        at,
        last_index-append_none b'/' s e v.no_slash,
        last_index-append_none b'\\' s e v.no_backslash,
        last_index_below b'/' s,
        last_index_below b'\\' s,
        rest_from-append s e,
      )
      refl

-- Whatever stands before it, dots and separators too, `path_extension` finds the extension that a
-- path ends in.
pub path_extension_lem : (s e : List ℕ) → IsExtension e → path_extension (s ++ e) ≡ e
unfolding path_extension
path_extension_lem s e v =
    ap (extension_at (s ++ e)) (last_index-append b'.' 0 s e v.dot)
    ∙ extension_at_end s e (length s + 0) v (omega arith)

runtime_eq_iff : (a b : InferenceRuntime) → (runtime_eq a b ≡ true) ↔ (a ≡ b)
runtime_eq_iff a b = ground arith

module _ (tolower : ℕ → ℕ) where
  -- The model path is accepted, for a runtime that the caller asks for.
  abbrev pub Accepts : InferenceRuntime → List ℕ → Type 0
  Accepts runtime path =
      let detected = inference_runtime_from_model_path tolower path in
      (detected ≢ runtime_auto) × ((runtime ≡ runtime_auto) ⊎ (runtime ≡ detected))

  empty_path : inference_runtime_from_model_path tolower [] ≡ runtime_auto
  unfolding inference_runtime_from_model_path last_index
  empty_path = refl

  decide :
      (runtime detected : InferenceRuntime) (nil : Bool)
      → (nil ≡ true → detected ≡ runtime_auto)
      → ((if nil
            then failure
            else if runtime_eq detected runtime_auto
            then failure
            else if runtime_eq runtime runtime_auto
            then success
            else if runtime_eq runtime detected
            then success
            else failure)
          ≡ success)
        ↔ ((detected ≢ runtime_auto) × ((runtime ≡ runtime_auto) ⊎ (runtime ≡ detected)))
  decide runtime detected true h = ground arith
  decide runtime runtime_auto false h = ground arith
  decide runtime_auto runtime_tensorrt false h = ground arith
  decide runtime_auto runtime_onnxruntime false h = ground arith
  decide runtime_auto runtime_torchscript false h = ground arith
  decide runtime_tensorrt runtime_tensorrt false h = ground arith
  decide runtime_tensorrt runtime_onnxruntime false h = ground arith
  decide runtime_tensorrt runtime_torchscript false h = ground arith
  decide runtime_onnxruntime runtime_tensorrt false h = ground arith
  decide runtime_onnxruntime runtime_onnxruntime false h = ground arith
  decide runtime_onnxruntime runtime_torchscript false h = ground arith
  decide runtime_torchscript runtime_tensorrt false h = ground arith
  decide runtime_torchscript runtime_onnxruntime false h = ground arith
  decide runtime_torchscript runtime_torchscript false h = ground arith

  -- `inference_runtime_validate_model_path` accepts a path exactly if its extension selects a runtime,
  -- and the caller asks for that one or for any.
  pub inference_runtime_validate_model_path-Accepts :
      (runtime : InferenceRuntime) (path : List ℕ)
      → (inference_runtime_validate_model_path tolower runtime path ≡ success)
        ↔ Accepts runtime path
  unfolding inference_runtime_validate_model_path
  inference_runtime_validate_model_path-Accepts runtime [] =
      decide runtime (inference_runtime_from_model_path tolower []) true (λ _. empty_path)
  inference_runtime_validate_model_path-Accepts runtime (c ∷ path) =
      decide runtime (inference_runtime_from_model_path tolower (c ∷ path)) false (λ e. cc)
