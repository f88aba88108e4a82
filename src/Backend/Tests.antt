-- ===== src/Backend/Tests.antt =====
-- Runs of inference/backend_registry.c.
use video_compute_pipeline.Prelude.{ℕ, ◌≡◌, ◌↔◌, refl, List, ◌++◌, some}
use video_compute_pipeline.Prelude.Int.{success, failure}
use video_compute_pipeline.Prelude.Text.{codes, last_index}
use video_compute_pipeline.Backend.{
  runtime_onnxruntime, runtime_tensorrt, path_extension, inference_runtime_parse,
  inference_runtime_validate_model_path,
}
use video_compute_pipeline.Backend.Path.{
  IsExtension, Accepts, path_extension_lem, inference_runtime_validate_model_path-Accepts,
}

abbrev dot_onnx : List ℕ
dot_onnx = codes ".onnx"

a_model :
    inference_runtime_validate_model_path (λ c. c) runtime_onnxruntime (codes "a.b/c.onnx")
    ≡ success
unfolding inference_runtime_validate_model_path last_index
a_model = refl

another_runtime :
    inference_runtime_validate_model_path (λ c. c) runtime_tensorrt (codes "a.b/c.onnx") ≡ failure
unfolding inference_runtime_validate_model_path last_index
another_runtime = refl

short_name : inference_runtime_parse "onnx" ≡ some runtime_onnxruntime
unfolding inference_runtime_parse
short_name = refl

dot_onnx-IsExtension : IsExtension dot_onnx
unfolding last_index
dot_onnx-IsExtension = record { dot = refl; no_slash = refl; no_backslash = refl }

path_extension_lem_example : path_extension (codes "a.b/c" ++ dot_onnx) ≡ dot_onnx
path_extension_lem_example = path_extension_lem (codes "a.b/c") dot_onnx dot_onnx-IsExtension

inference_runtime_validate_model_path-Accepts_example :
    (inference_runtime_validate_model_path (λ c. c) runtime_onnxruntime (codes "a.onnx") ≡ success)
    ↔ Accepts (λ c. c) runtime_onnxruntime (codes "a.onnx")
inference_runtime_validate_model_path-Accepts_example =
    inference_runtime_validate_model_path-Accepts (λ c. c) runtime_onnxruntime (codes "a.onnx")
