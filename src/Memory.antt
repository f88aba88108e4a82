-- ===== src/Memory.antt =====
-- The C heap as the source uses it: calloc, free, memcpy and size_t.
-- A block is owned by the object that holds its pointer, so its contents stand in the pointer.
-- Each call of calloc has a number, which serves as the address of the block that it returns, and
-- the environment decides by that number whether the call succeeds. `granted` and `freed` list the
-- addresses that calloc has returned and that free has taken back.
use video_compute_pipeline.Prelude.{
  ℕ, zero, suc, ◌+◌, ◌-◌, ◌*◌, ◌%◌, ◌^◌, Bool, Option, none, some, List, [], ◌∷◌, ◌&&◌, true, false,
  ◌==◌, if◌then◌else◌,
}
use video_compute_pipeline.Prelude.Int.{ℤ, pos, negsuc}

-- SIZE_MAX + 1.
abbrev pub size_mod : ℕ
size_mod = 2 ^ 64

abbrev pub size_max : ℕ
size_max = 2 ^ 64 - 1

-- Sums and products of size_t wrap.
abbrev pub add_size : ℕ → ℕ → ℕ
add_size a b = (a + b) % size_mod

abbrev pub mul_size : ℕ → ℕ → ℕ
mul_size a b = (a * b) % size_mod

-- The cast (size_t)value of an int.
abbrev pub to_size : ℤ → ℕ
to_size (pos n) = n % size_mod
to_size (negsuc n) = (size_max - n) % size_mod

pub record Block {ℓ} (A : Type ℓ) : Type ℓ where
  pub address : ℕ
  pub contents : List A

pub record Heap : Type 0 where
  pub calls : ℕ
  pub granted : List ℕ
  pub freed : List ℕ
  pub grants : ℕ → Bool

module _ {ℓ} {A : Type ℓ} where
  -- calloc: `zeroed` is the array with all bits zero.
  unfoldable pub calloc : Heap → List A → Heap × Option (Block A)
  calloc h zeroed = (
    record h {
      calls = suc h.calls;
      granted = (if h.grants h.calls then h.calls ∷ h.granted else h.granted);
    },
    (if h.grants h.calls then some (record { address = h.calls; contents = zeroed }) else none),
  )

  abbrev pub retire : Option (Block A) → List ℕ → List ℕ
  retire none freed = freed
  retire (some b) freed = b.address ∷ freed

  -- free: of a null pointer it does nothing.
  abbrev pub free : Heap → Option (Block A) → Heap
  free h p = record h { freed = retire p h.freed }

  -- memcpy: the first `n` elements of `src` over those of `dst`.
  abbrev pub memcpy : ℕ → List A → List A → List A
  memcpy zero src dst = dst
  memcpy (suc n) [] dst = dst
  memcpy (suc n) (x ∷ src) [] = []
  memcpy (suc n) (x ∷ src) (y ∷ dst) = x ∷ memcpy n src dst

-- A pointer into a block.
pub record Pointer : Type 0 where
  pub block : ℕ
  pub offset : ℕ

abbrev pub pointer_eq : Option Pointer → Option Pointer → Bool
pointer_eq none none = true
pointer_eq none (some q) = false
pointer_eq (some p) none = false
pointer_eq (some p) (some q) = (p.block == q.block) && (p.offset == q.offset)

abbrev pub start {ℓ} : {A : Type ℓ} → Option (Block A) → Option Pointer
start none = none
start (some b) = some (record { block = b.address; offset = 0 })

abbrev pub is_some {ℓ} : {A : Type ℓ} → Option A → Bool
is_some none = false
is_some (some a) = true
