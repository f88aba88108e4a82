-- ===== src/Frame/Ledger.antt =====
-- Which blocks a frame owns, and that moving a frame neither loses nor duplicates one.
use video_compute_pipeline.Prelude.{
  ℕ, ◌+◌, ◌≡◌, false, List, [], ◌∷◌, Option, none, some, arith, Option-cases, inl, inr,
}
use video_compute_pipeline.Prelude.Count.{count, count-nil, count-cons, items}
use video_compute_pipeline.Memory.{Heap, Block, retire}
use video_compute_pipeline.Frame.{Frame, set_planes, move}

abbrev pub address {ℓ} : {A : Type ℓ} → Option (Block A) → List ℕ
address none = []
address (some b) = b.address ∷ []

abbrev pub owned : Frame → List ℕ
owned f = address f.pixels

pub count-retire {ℓ} :
    {A : Type ℓ} (a : ℕ) (p : Option (Block A)) (freed : List ℕ)
    → count a (retire p freed) ≡ count a (address p) + count a freed
count-retire a none freed = omega (arith, count-nil a)
count-retire a (some b) freed = count-cons a b.address freed

pub pixels-set_planes : (f : Frame) → (set_planes f).pixels ≡ f.pixels
unfolding set_planes
pixels-set_planes f = elim (Option-cases f.pixels) [
  | inl e ↦ rw (e, set_planes)
  | inr (b, e) ↦ rw (e, set_planes)
]

-- `frame_move` between two objects: every block that was owned or freed is owned or freed after it.
pub move-SameItems :
    (h : Heap) (dst src : Frame) (a : ℕ)
    → let (h', dst', src', result) = move false h dst src in
      count a h'.freed + (count a (owned dst') + count a (owned src'))
      ≡ count a h.freed + (count a (owned dst) + count a (owned src))
unfolding move
move-SameItems h dst src a =
    rw (pixels-set_planes src) (omega (items, count-retire a dst.pixels h.freed))
