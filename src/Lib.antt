-- ===== src/Lib.antt =====
-- A model of VideoComputePipeline, a program in C that decodes a video, filters its frames or
-- detects objects in them on several threads, and encodes the result.
--
-- Paths below are from VideoComputePipeline/src unless they start with include.
--
-- The parts and the files that model them:
--   Memory        calloc, free, memcpy and size_t, as the program uses them.
--   Frame         core/frame.c: frame_alloc, frame_free, frame_copy, frame_move and the layout of a
--                 frame. Frame/Size is about the sizes, Frame/Valid about filled frames and
--                 frame_alloc, Frame/Transfer about frame_copy and frame_move, Frame/Ledger and
--                 Frame/Balance about the buffers that a frame owns.
--   FrameSlot     pipeline/frame_slot.c: a frame with its marks.
--   FramePool     pipeline/frame_pool.c: the frames that the stages reuse. FramePool/Slots, FramePool/Invariant and
--                 FramePool/Cases are about acquire and release, FramePool/Grants about release,
--                 FramePool/Fresh and FramePool/Init about
--                 frame_pool_init, FramePool/Ledger about the buffers that a pool owns.
--   FrameQueue    pipeline/frame_queue.c: a bounded circular queue. FrameQueue/Refine is about one
--                 call, FrameQueue/Run about any sequence of calls.
--   Runner        pipeline/pipeline_runner.c, the filter pipeline: Runner/Packet and
--                 Runner/PacketQueue are the queue between two stages, Runner/Stores and Runner/Fifo are
--                 about it.
--                 Runner/BatchQueue is the queue of the detection pipelines,
--                 Runner/BatchQueue/Refine, Runner/BatchQueue/Run and Runner/BatchQueue/Drain
--                 are about it.
--                 Runner/Pending is the list of packets that came early and Runner/Encoder
--                 the thread that writes them; Runner/Lookup, Runner/Drain, Runner/Arrivals and
--                 Runner/Ordered are about that thread.
--                 Runner/Stages is the decoder thread and Runner/Stages/Processor a processor
--                 thread; Runner/Stages/Number and Runner/Stages/Passed are about the numbers of
--                 their frames.
--                 Runner/Topology is build_detection_topology, the checks of a detection run.
--                 Runner/Hardware is the context of the detection pipeline that decodes on the
--                 GPU and waits for each batch, with detection_recycle_batch. Below it, PendingBatch is
--                 the list of batches that came early, Output the ordered output by the main thread,
--                 Threads the decoder thread and the workers, and Release what is released at the
--                 end. Threads/Number and Threads/Fill are about the decoder; Log and Emit are about
--                 the output of one batch, Reorder and Accept about one call of
--                 detection_output_batch_ordered, Chain about batches that follow each other, and
--                 Order about the loop of the main thread.
--   Backend       inference/backend_registry.c and include/inference/inference_types.h: the runtimes
--                 and the runtime of a model path. Backend/Path is about them.
--   Config        pipeline/pipeline_config.c: Config/Names and Config/Exact are the choices of the
--                 command line, Config/ClassFilter the lists of classes (strtol is a parameter) and
--                 Config/OutputPath the extension of the output path; Config/Settings is the
--                 configuration with its defaults. Config/Args, Config/Args/Options and Config/Args/Parse
--                 are pipeline_config_parse_args; Config/Args/Words, Config/Args/Valid and
--                 Config/Args/Accepted are about the configuration that it returns.
--   ExecutionPlan pipeline/pipeline_execution_plan.c: the plan of a detection run, built by
--                 ExecutionPlan/Build; ExecutionPlan/Fits and ExecutionPlan/Batch are about its batch
--                 and ExecutionPlan/Lanes about its counts. ExecutionPlan/Profile is
--                 pipeline/video_profile.c with the hardware's record, ExecutionPlan/Bytes is about it.
--   Filters       cpu/cpu_filters.c: grayscale and box blur, whose ints wrap to 32 bits. Filters/Pixels
--                 and Filters/Offsets are about the loops over the pixels, Filters/Output about the
--                 output frame, Filters/Average about the kernel, Filters/Colours about one pixel and
--                 Filters/Blur about the images that the filters make.
--   DetectionResult  inference/detection_result.c: the detections of a frame.
--   Yolo          inference/yolo_postprocess.cpp: the detections of a model's output. Yolo/Scores is
--                 the shape of the output and the class of a prediction; Yolo/Keep is about the
--                 suppression of overlapping boxes, Yolo/Valid about one detection, Yolo/Fits and
--                 Yolo/Bounds about the reads of the output, Yolo/Outcome about the whole call.
--   FrameBatch    pipeline/frame_batch.c: the frames of a batch with their detections and timings;
--                 FrameBatch/CudaFrame is gpu/cuda_frame.c. FrameBatch/Ledger is about the blocks that
--                 a batch owns, FrameBatch/Settle and FrameBatch/Alloc about frame_batch_alloc.
--
-- The decoder takes a frame from a pool, the workers process it and the encoder writes it and gives
-- it back; packet queues connect the stages. In the detection pipeline the decoder fills batches,
-- the workers run a model on them, and the main thread writes the detections and the video in order
-- and gives the batches back.
--
-- How the code is rendered. A function that writes through a pointer returns the new value. The
-- objects that a pointer names exist: the guards against null pointers are left out, and so are
-- aliased arguments except in frame_move, which takes a flag for them. A buffer is owned by the
-- object that holds its pointer, and its contents stand there; its address is the number of the
-- call of calloc that returned it. The environment decides which calls of calloc succeed. An int is
-- an integer, with its range as a hypothesis where it matters; size_t wraps at 2 ^ 64. A critical
-- section is one function, and where the source waits on a condition variable the reply is `waits`.
-- The locks, which the platform provides, are left out, with the failures to make them.
--
-- Loops over arrays are structural recursion on lists. The loop of
-- write_available_ordered has one round more than the pending list has packets as its fuel: each
-- round but the last takes a packet off. The encoder sees the packets that arrive as a list, each
-- with the flag `failed` as another thread may have set it. The writer, the timers and the benchmark
-- are parameters of the encoder. Likewise the loop over the pending batches that are ready has one
-- round more than the list has nodes, and the main thread sees the completed batches as a list. What
-- FFmpeg, CUDA, an engine, the clock and the files do for the detection pipeline is a record of
-- parameters over a state of their own. For the post-processing the machine's float and std::sort are
-- parameters. A frame number of the decoder is a natural number.
--
-- Not modelled: the set-up and the tear-down of the pipelines; of the detection pipelines the ones
-- that decode on the CPU and the threads of the asynchronous one; the engines, the CUDA kernels and
-- the readers and writers, which call third-party libraries; the user interface; logging, timers and
-- reports.
pub mod Prelude
pub mod Memory
pub mod Frame
pub mod FrameSlot
pub mod FramePool
pub mod FrameQueue
pub mod Runner
pub mod Backend
pub mod Config
pub mod DetectionResult
pub mod ExecutionPlan
pub mod Filters
pub mod Yolo
pub mod FrameBatch
