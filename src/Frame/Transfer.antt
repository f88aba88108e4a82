-- ===== src/Frame/Transfer.antt =====
-- `frame_copy` and `frame_move`: who owns which block afterwards.
use video_compute_pipeline.Prelude.{
  ℕ, zero, suc, ◌≡◌, refl, ap, sym, false, ◌⊎◌, inl, inr, List, [], ◌∷◌, ◌∙◌, some, length,
  length-replicate, arith,
}
use video_compute_pipeline.Prelude.Int.{ℤ, success, failure}
use video_compute_pipeline.Memory.{Heap, Block, memcpy, retire}
use video_compute_pipeline.Frame.Valid.{IsFilled, is_valid-IsFilled, Allocated, Refused, alloc_lem}
use video_compute_pipeline.Frame.{
  Frame, init, set_planes, free, alloc, copy, copy_into, copy_pixels, move,
}

-- Copying as many elements as both lists have gives the source.
memcpy_all : (n : ℕ) (src dst : List ℕ) → length src ≡ n → length dst ≡ n → memcpy n src dst ≡ src
memcpy_all zero [] [] p q = refl
memcpy_all zero (x ∷ src) dst p q = cc
memcpy_all zero [] (y ∷ dst) p q = cc
memcpy_all (suc n) [] dst p q = cc
memcpy_all (suc n) (x ∷ src) [] p q = cc
memcpy_all (suc n) (x ∷ src) (y ∷ dst) p q =
    ap (λ l. x ∷ l) (memcpy_all n src dst (omega arith) (omega arith))

-- A copy that succeeds: an equal image in a block of its own.
pub record Copied (h : Heap) (dst src : Frame) (v : IsFilled src) (out : Heap × Frame × ℤ)
    : Type 0 where
  pub result : out.2 ≡ success
  pub filled : IsFilled out.1
  pub width : out.1.width ≡ src.width
  pub height : out.1.height ≡ src.height
  pub format : out.1.format ≡ src.format
  pub index : out.1.index ≡ src.index
  pub pixels : out.1.pixels ≡ some (record { address = h.calls; contents = v.block.contents })
  pub freed : out.0.freed ≡ (free h dst).0.freed

-- A copy for which calloc refused: nothing has changed.
pub record NotCopied (h : Heap) (dst : Frame) (out : Heap × Frame × ℤ) : Type 0 where
  pub result : out.2 ≡ failure
  pub frame : out.1 ≡ dst
  pub freed : out.0.freed ≡ h.freed
  pub reason : h.grants h.calls ≡ false

-- A frame given another index and another block of the same size.
relaid-IsFilled :
    (c : Frame) (i : ℤ) (b : Block ℕ)
    → IsFilled c
    → length b.contents ≡ c.size
    → IsFilled (set_planes (record c { index = i; pixels = some b }))
unfolding set_planes
relaid-IsFilled c i b v room = record {
  wide = v.wide;
  high = v.high;
  layout_channels = v.layout_channels;
  layout_stride = v.layout_stride;
  layout_size = v.layout_size;
  some_stride = v.some_stride;
  some_size = v.some_size;
  block = b;
  owns = refl;
  room = room;
  planes_set = refl;
}

module _ (h : Heap) (dst src : Frame) (v : IsFilled src) where
  copied_block : Block ℕ
  copied_block = record { address = h.calls; contents = v.block.contents }

  copy_if_not :
      (out : Heap × Frame × ℤ)
      → Refused h init src.width src.height src.format out
      → NotCopied h dst (copy_into out.0 dst src out.1 out.2)
  unfolding copy_into
  copy_if_not out r =
      rw (r.result, copy_into)
        (record {
          result = refl;
          frame = refl;
          freed = r.freed;
          reason = elim r.reason [ inl e ↦ absurd (v.some_size (v.layout_size ∙ e)) | inr e ↦ e ];
        })

  copied_pixels :
      (out : Heap × Frame × ℤ)
      → Allocated h init src.width src.height src.format out
      → copy_pixels src.size src.pixels out.1.pixels ≡ some copied_block
  unfolding copy_pixels copied_block
  copied_pixels out a =
      rw (a.pixels, v.owns)
        (ap (λ (l : List ℕ). some (record { address = h.calls; contents = l }))
          (memcpy_all src.size v.block.contents _ v.room
            (length-replicate _ 0 ∙ sym v.layout_size)))

  copied_frame : Frame → Frame
  copied_frame c = set_planes (record c { index = src.index; pixels = some copied_block })

  success_copy :
      (out : Heap × Frame × ℤ)
      → Allocated h init src.width src.height src.format out
      → copy_into out.0 dst src out.1 out.2 ≡ ((free out.0 dst).0, copied_frame out.1, success)
  unfolding copy_into copied_frame
  success_copy out a = rw (a.result, copied_pixels out a)

  same_size :
      (c : Frame)
      → IsFilled c
      → c.width ≡ src.width
      → c.height ≡ src.height
      → c.format ≡ src.format
      → src.size ≡ c.size
  same_size c w e f g = v.layout_size ∙ sym (rw (e, f, g) at w.layout_size)

  copy_if_new :
      (out : Heap × Frame × ℤ)
      → Allocated h init src.width src.height src.format out
      → Copied h dst src v (copy_into out.0 dst src out.1 out.2)
  unfolding set_planes copied_block copied_frame
  copy_if_new out a = rw (success_copy out a) (record {
    result = refl;
    filled =
        relaid-IsFilled out.1 src.index copied_block a.filled
          (v.room ∙ same_size out.1 a.filled a.width a.height a.format);
    width = a.width;
    height = a.height;
    format = a.format;
    index = refl;
    pixels = refl;
    freed = ap (retire dst.pixels) a.freed;
  })

  copy_unfolds : copy h dst src ≡ (
      let (h', c, result) = alloc h init src.width src.height src.format in
      copy_into h' dst src c result)
  unfolding copy
  copy_unfolds = rw (is_valid-IsFilled src v)

-- `frame_copy` of a filled frame makes a filled frame with the same image and index in a new block
-- and frees what the destination held; if calloc refuses, it fails and changes nothing.
pub copy_lem :
    (h : Heap) (dst src : Frame) (v : IsFilled src)
    → NotCopied h dst (copy h dst src) ⊎ Copied h dst src v (copy h dst src)
copy_lem h dst src v =
    rw (copy_unfolds h dst src v) (elim (alloc_lem h init src.width src.height src.format) [
      | inl r ↦ inl (copy_if_not h dst src v _ r)
      | inr a ↦ inr (copy_if_new h dst src v _ a)
    ])

-- `frame_move` of a filled frame between two objects hands the frame over as it is, leaves the
-- empty frame behind and frees what the destination held.
pub move_lem :
    (h : Heap) (dst src : Frame)
    → IsFilled src
    → move false h dst src ≡ ((free h dst).0, src, init, success)
unfolding move
move_lem h dst src v = rw v.planes_set
