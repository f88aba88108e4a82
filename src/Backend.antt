-- ===== src/Backend.antt =====
-- include/inference/inference_types.h and inference/backend_registry.c: the inference runtimes, the
-- devices and the model types, with their names and the runtime that a model path selects.
-- `tolower` is the C library's. What the build links in is a parameter of the registry.
pub mod Path
pub mod Tests
use Prim.Native.String.{String}
use text.Mathlib.Text.{◌==◌}
use video_compute_pipeline.Prelude.{
  ℕ, Bool, true, false, ◌&&◌, ◌||◌, Option, none, some, List, [], ◌∷◌, if◌then◌else◌,
}
use video_compute_pipeline.Prelude.Text.{
  codes, code_eq, is_nil, last_index, comes_before, rest_from,
}
use video_compute_pipeline.Prelude.Int.{ℤ, success, failure}

pub data InferenceRuntime : Type 0 where
  runtime_auto runtime_tensorrt runtime_onnxruntime runtime_torchscript : InferenceRuntime

pub data BackendDevice : Type 0 where
  device_cuda device_cpu : BackendDevice

pub data ModelType : Type 0 where
  model_auto model_yolov5 : ModelType

abbrev pub inference_runtime_to_string : InferenceRuntime → String
inference_runtime_to_string runtime_tensorrt = "tensorrt"
inference_runtime_to_string runtime_onnxruntime = "onnxruntime"
inference_runtime_to_string runtime_torchscript = "torchscript"
inference_runtime_to_string runtime_auto = "auto"

abbrev pub backend_device_to_string : BackendDevice → String
backend_device_to_string device_cpu = "cpu"
backend_device_to_string device_cuda = "cuda"

abbrev pub model_type_to_string : ModelType → String
model_type_to_string model_yolov5 = "yolov5"
model_type_to_string model_auto = "auto"

unfoldable pub inference_runtime_parse : String → Option InferenceRuntime
inference_runtime_parse value =
    if value == "auto"
    then some runtime_auto
    else if value == "tensorrt"
    then some runtime_tensorrt
    else if value == "onnxruntime" || value == "onnx"
    then some runtime_onnxruntime
    else if value == "torchscript" || (value == "torch" || value == "libtorch")
    then some runtime_torchscript
    else none

unfoldable pub backend_device_parse : String → Option BackendDevice
backend_device_parse value =
    if value == "cuda" then some device_cuda else if value == "cpu" then some device_cpu else none

unfoldable pub model_type_parse : String → Option ModelType
model_type_parse value =
    if value == "auto"
    then some model_auto
    else if value == "yolov5"
    then some model_yolov5
    else none

-- `path_extension` once the last dot is found or not.
unfoldable pub extension_at : List ℕ → Option ℕ → List ℕ
extension_at path none = []
extension_at path (some dot) =
    if comes_before dot (last_index b'/' path) || comes_before dot (last_index b'\\' path)
    then []
    else rest_from dot path

unfoldable pub path_extension : List ℕ → List ℕ
unfolding extension_at
path_extension path = extension_at path (last_index b'.' path)

abbrev pub runtime_eq : InferenceRuntime → InferenceRuntime → Bool
runtime_eq runtime_auto runtime_auto = true
runtime_eq runtime_tensorrt runtime_tensorrt = true
runtime_eq runtime_onnxruntime runtime_onnxruntime = true
runtime_eq runtime_torchscript runtime_torchscript = true
runtime_eq _ _ = false

module _ (tolower : ℕ → ℕ) where
  unfoldable pub str_ieq : List ℕ → List ℕ → Bool
  str_ieq [] [] = true
  str_ieq [] (d ∷ t) = false
  str_ieq (c ∷ s) [] = false
  str_ieq (c ∷ s) (d ∷ t) = code_eq (tolower c) (tolower d) && str_ieq s t

  -- The runtime of an extension.
  unfoldable pub runtime_of_extension : List ℕ → InferenceRuntime
  unfolding str_ieq
  runtime_of_extension ext =
      if str_ieq ext (codes ".engine") || str_ieq ext (codes ".plan")
      then runtime_tensorrt
      else if str_ieq ext (codes ".onnx")
      then runtime_onnxruntime
      else if str_ieq ext (codes ".pt")
          || (str_ieq ext (codes ".ts") || str_ieq ext (codes ".torchscript"))
      then runtime_torchscript
      else runtime_auto

  unfoldable pub inference_runtime_from_model_path : List ℕ → InferenceRuntime
  unfolding runtime_of_extension path_extension
  inference_runtime_from_model_path model_path = runtime_of_extension (path_extension model_path)

  unfoldable pub inference_model_format_from_path : List ℕ → String
  unfolding inference_runtime_from_model_path
  inference_model_format_from_path model_path =
      elim (inference_runtime_from_model_path model_path) [
        | runtime_tensorrt ↦ "engine"
        | runtime_onnxruntime ↦ "onnx"
        | runtime_torchscript ↦ "torchscript"
        | runtime_auto ↦ "unknown"
      ]

  -- The message is left out.
  unfoldable pub inference_runtime_validate_model_path : InferenceRuntime → List ℕ → ℤ
  unfolding inference_runtime_from_model_path
  inference_runtime_validate_model_path runtime model_path =
      let detected = inference_runtime_from_model_path model_path in
      if is_nil model_path
      then failure
      else if runtime_eq detected runtime_auto
      then failure
      else if runtime_eq runtime runtime_auto
      then success
      else if runtime_eq runtime detected
      then success
      else failure

pub record BackendRegistryInfo : Type 0 where
  pub runtime : InferenceRuntime
  pub compiled : Bool
  pub available : Bool
  pub cuda_available : Bool
  pub cpu_available : Bool
  pub gpu_io_available : Bool
  pub supports_true_batch : Bool
  pub supports_multi_context : Bool
  pub version : String
  pub diagnostic : String

abbrev version_of : Bool → String
version_of compiled = if compiled then "linked" else "not compiled"

-- `compiled` says which backends the build links in.
unfoldable pub inference_backend_registry_get :
    (InferenceRuntime → Bool) → InferenceRuntime → Option BackendRegistryInfo
inference_backend_registry_get compiled runtime_tensorrt =
    let here = compiled runtime_tensorrt in
    some (record {
      runtime = runtime_tensorrt;
      compiled = here;
      available = here;
      cuda_available = here;
      cpu_available = false;
      gpu_io_available = here;
      supports_true_batch = false;
      supports_multi_context = here;
      version = version_of here;
      diagnostic =
          (if here
            then "TensorRT backend is compiled"
            else "TensorRT backend was not compiled. Rebuild with ENABLE_TENSORRT=ON.");
    })
inference_backend_registry_get compiled runtime_onnxruntime =
    let here = compiled runtime_onnxruntime in
    some (record {
      runtime = runtime_onnxruntime;
      compiled = here;
      available = here;
      cuda_available = here;
      cpu_available = here;
      gpu_io_available = here;
      supports_true_batch = here;
      supports_multi_context = false;
      version = version_of here;
      diagnostic =
          (if here
            then "ONNX Runtime backend is compiled with CUDA I/O binding support"
            else "ONNX Runtime backend was not compiled. Rebuild with ENABLE_ONNXRUNTIME=ON.");
    })
inference_backend_registry_get compiled runtime_torchscript =
    let here = compiled runtime_torchscript in
    some (record {
      runtime = runtime_torchscript;
      compiled = here;
      available = here;
      cuda_available = here;
      cpu_available = here;
      gpu_io_available = here;
      supports_true_batch = here;
      supports_multi_context = false;
      version = version_of here;
      diagnostic =
          (if here
            then "TorchScript backend is compiled with CUDA tensor support"
            else "TorchScript backend was not compiled. Rebuild with ENABLE_LIBTORCH=ON.");
    })
inference_backend_registry_get compiled runtime_auto = none
