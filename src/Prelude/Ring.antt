-- ===== src/Prelude/Ring.antt =====
-- A circular queue in an array: the part in use, and the rest, where every place is vacant.
-- `FrameQueue` and `PacketQueue` both have this shape.
use Prim.Native.Nat.{ℕ, zero, suc, ◌+◌, ◌-◌, ◌%◌, ◌≤◌, ◌<◌}
use mathlib.Core.Path.{◌≡◌, refl, sym, ◌∙◌, ap, subst}
use mathlib.Core.List.{List, [], ◌∷◌, ◌++◌}
use native.Mathlib.Nat.{mod-add-mod, mod-eq_of_lt, mod-eq-sub-mod, mod-lt}
use native.Mathlib.Omega.{arith}
use video_compute_pipeline.Prelude.Lists.{
  length, get_or, set, length-set, All, All-append, replicate, length-replicate,
}
use video_compute_pipeline.Prelude.Window.{window, shift, window-set_end, window-set_head}

module _ {ℓ} {A : Type ℓ} (d : A) where
  pub record IsRing (items : List A) (cap head tail count : ℕ) : Type ℓ where
    pub room : length items ≡ cap
    pub head_in : head < cap
    pub count_in : count ≤ cap
    pub tail_at : tail ≡ (head + count) % cap
    pub vacant : All (λ x. x ≡ d) (window d items cap tail (cap - count))

  -- A vacant place holds the empty value.
  first_vacant :
      (items : List A) (cap tail m n : ℕ)
      → m ≡ suc n
      → All (λ x. x ≡ d) (window d items cap tail m)
      → (get_or items tail d ≡ d) × All (λ x. x ≡ d) (window d items cap ((tail + 1) % cap) n)
  first_vacant items cap tail m n e all =
      subst (λ k. All (λ x. x ≡ d) (window d items cap tail k)) e all

  module _ (items : List A) (cap head tail count : ℕ) (r : IsRing items cap head tail count) where
    pub tail_in : tail < cap
    tail_in =
        omega
          (arith, r.tail_at, r.head_in, mod-lt (head + count) {m = cap} (omega (arith, r.head_in)))

    come_round : (tail + (cap - count)) % cap ≡ head
    come_round =
        ap (λ t. (t + (cap - count)) % cap) r.tail_at
        ∙ mod-add-mod (head + count) cap (cap - count)
        ∙ ap (λ k. k % cap) {x = head + count + (cap - count)} {y = head + cap}
            (omega (arith, r.count_in))
        ∙ mod-eq-sub-mod {n = head + cap} {m = cap} (omega arith)
        ∙ mod-eq_of_lt {n = head + cap - cap} {m = cap} (omega (arith, r.head_in))
        ∙ omega arith

    -- The place that `tail` names is vacant while the queue is not full.
    pub tail_vacant : count < cap → get_or items tail d ≡ d
    tail_vacant h = (first_vacant items cap tail _ (cap - suc count) (omega (arith, h)) r.vacant).0

    -- A write at `tail` appends the value.
    pub push_window :
        (v : A)
        → count < cap
        → window d (set items tail v) cap head (suc count)
          ≡ window d items cap head count ++ (v ∷ [])
    push_window v h =
        subst
          (λ t.
            window d (set items t v) cap head (suc count)
            ≡ window d items cap head count ++ (v ∷ []))
          (sym r.tail_at) (window-set_end d cap items head count v (sym r.room) r.head_in h)

    pub push-IsRing :
        (v : A) → count < cap → IsRing (set items tail v) cap head ((tail + 1) % cap) (suc count)
    push-IsRing v h = record {
      room = length-set items tail v ∙ r.room;
      head_in = r.head_in;
      count_in = h;
      tail_at =
          ap (λ t. (t + 1) % cap) r.tail_at
          ∙ mod-add-mod (head + count) cap 1
          ∙ ap (λ k. k % cap) (omega arith);
      vacant =
          subst (λ w. All (λ x. x ≡ d) w)
            (sym (window-set_head d cap items tail (cap - suc count) v tail_in (omega (arith, h))))
            (first_vacant items cap tail _ (cap - suc count) (omega (arith, h)) r.vacant).1;
    }

  module _ (items : List A) (cap head tail n : ℕ) (r : IsRing items cap head tail (suc n)) where
    -- Clearing the place at `head` removes the oldest value.
    pub pop_window :
        window d items cap head (suc n)
        ≡ get_or items head d ∷ window d (set items head d) cap ((head + 1) % cap) n
    pop_window =
        ap (λ w. get_or items head d ∷ w)
          (sym (window-set_head d cap items head n d r.head_in (omega (arith, r.count_in))))

    freed_place :
        window d (set items head d) cap tail (cap - n)
        ≡ window d items cap tail (cap - suc n) ++ (d ∷ [])
    freed_place =
        subst
          (λ k.
            window d (set items head d) cap tail k
            ≡ window d items cap tail (cap - suc n) ++ (d ∷ []))
          {x = suc (cap - suc n)} {y = cap - n} (omega (arith, r.count_in))
          (subst
            (λ i.
              window d (set items i d) cap tail (suc (cap - suc n))
              ≡ window d items cap tail (cap - suc n) ++ (d ∷ []))
            (come_round items cap head tail (suc n) r)
            (window-set_end d cap items tail (cap - suc n) d (sym r.room)
              (tail_in items cap head tail (suc n) r) (omega (arith, r.head_in))))

    pub pop-IsRing : IsRing (set items head d) cap ((head + 1) % cap) tail n
    pop-IsRing = record {
      room = length-set items head d ∙ r.room;
      head_in = mod-lt (head + 1) (omega (arith, r.head_in));
      count_in = omega (arith, r.count_in);
      tail_at = r.tail_at ∙ sym (shift cap head n);
      vacant =
          subst (λ w. All (λ x. x ≡ d) w) (sym freed_place)
            (All-append (λ x. x ≡ d) _ (d ∷ []) r.vacant (refl, tt));
    }

module _ {ℓ} {A : Type ℓ} (d : A) where
  get_or-replicate : (n i : ℕ) → get_or (replicate n d) i d ≡ d
  get_or-replicate zero i = refl
  get_or-replicate (suc n) zero = refl
  get_or-replicate (suc n) (suc i) = get_or-replicate n i

  all_vacant : (n cap h k : ℕ) → All (λ x. x ≡ d) (window d (replicate n d) cap h k)
  all_vacant n cap h zero = tt
  all_vacant n cap h (suc k) = (get_or-replicate n h, all_vacant n cap ((h + 1) % cap) k)

  -- The ring that an array of empty values makes.
  pub fresh-IsRing : (cap : ℕ) → 0 < cap → IsRing d (replicate cap d) cap 0 0 0
  fresh-IsRing cap p = record {
    room = length-replicate cap d;
    head_in = p;
    count_in = omega arith;
    tail_at = sym (mod-eq_of_lt (omega (arith, p)));
    vacant = all_vacant cap cap 0 (cap - 0);
  }
