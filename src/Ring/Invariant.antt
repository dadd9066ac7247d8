-- ===== src/Ring/Invariant.antt =====
-- The well-formedness of a FrameRing (src/frame-ring.hpp) and of the change of
-- one slot in place.
use native.Mathlib.Omega.{arith}
use obs_trigglow_dynamic_del.Prelude.{
  ℕ, ◌^◌, max, ◌≤◌, ◌<◌, ◌%◌, add_u64, ◌≡◌, refl, ap, ◌∙◌, ◌⊎◌, inl, inr, true, ◌==◌, if◌then◌else◌,
  length, length-set, length-replicate, get_or-replicate, Bool-cases, ==_iff,
}
use obs_trigglow_dynamic_del.Arena.{Config}
use obs_trigglow_dynamic_del.Select.Search.{Ordered}
use obs_trigglow_dynamic_del.Ring.{
  FrameRing, Header, free, empty_header, header_at, index_at, at_position, put_header, capture_at,
  is_ready, make,
}
use obs_trigglow_dynamic_del.Ring.Slots.{header_at-put}

-- Before the ring is full its window starts at slot 0 and ends before the write index; from then on
-- it starts there.
abbrev pub Layout : FrameRing → Type 0
Layout r =
    ((r.oldest ≡ 0) × (r.write_index ≡ r.buffered) × (r.buffered < length r.headers))
    ⊎ ((r.buffered ≡ length r.headers) × (r.oldest ≡ r.write_index))

-- `generation` is the next generation that any ring will hand out.
pub record IsValid (r : FrameRing) (generation : ℕ) : Type 0 where
  pub some_slot : 0 < length r.headers
  pub small : length r.headers < 2 ^ 63
  pub write_in : r.write_index < length r.headers
  pub layout : Layout r
  pub ordered : Ordered r.buffered (capture_at r)
  pub newest : (p : ℕ) → p < r.buffered → capture_at r p ≤ r.last_capture_ns
  pub older : (i : ℕ) → (header_at r i).generation < generation
  pub pinned : (i : ℕ) → 0 < (header_at r i).pins → is_ready (header_at r i).state ≡ true
  pub unused : (i : ℕ) → r.buffered ≤ i → header_at r i ≡ empty_header

-- A new ring is valid.
pub make-IsValid :
    (slots : ℕ) (config : Config) (generation : ℕ)
    → slots < 2 ^ 63
    → 0 < generation
    → IsValid (make slots config) generation
unfolding make
make-IsValid slots config generation h g =
    let n : length (make slots config).headers ≡ max 1 slots =
      length-replicate (max 1 slots) empty_header in
    let empty = λ (i : ℕ). get_or-replicate (max 1 slots) i empty_header in
    record {
      some_slot = omega (arith, n);
      small = omega (arith, n);
      write_in = omega (arith, n);
      layout = inl (refl, refl, omega (arith, n));
      ordered = λ p q a b. absurd (omega arith);
      newest = λ p b. absurd (omega arith);
      older = λ i. ground (arith, empty i);
      pinned = λ i b. absurd (ground (arith, empty i));
      unused = λ i b. empty i;
    }

-- What an operation on one slot in place may change: neither the capture time nor the generation,
-- and pins only on a Ready slot.
pub record IsTouched (h k : Header) : Type 0 where
  pub in_use : h.state ≡ free → ⊥
  pub same_capture : k.capture_ns ≡ h.capture_ns
  pub same_generation : k.generation ≡ h.generation
  pub pins_ready : 0 < k.pins → is_ready k.state ≡ true

module _ (r : FrameRing) (i : ℕ) (k : Header) (inside : i < length r.headers) where
  pub at_put : (j : ℕ) → header_at (put_header r i k) j ≡ (if i == j then k else header_at r j)
  at_put j = header_at-put r i j k inside

  pub at_position-put :
      (p : ℕ)
      → at_position (put_header r i k) p ≡ (if i == index_at r p then k else at_position r p)
  at_position-put p =
      ap (λ n. header_at (put_header r i k) (add_u64 r.oldest p % n)) (length-set r.headers i k)
      ∙ at_put (index_at r p)

  capture-put :
      k.capture_ns ≡ (header_at r i).capture_ns
      → (p : ℕ) → capture_at (put_header r i k) p ≡ capture_at r p
  capture-put e p = ground (arith, at_position-put p, e)

  free_slot :
      (j : ℕ) → (i == j) ≡ true → header_at r j ≡ empty_header → (header_at r i).state ≡ free
  free_slot j e h = rw ((==_iff i j).0 e) (ap (λ (x : Header). x.state) h)

  pub put-IsValid :
      {generation : ℕ}
      → IsValid r generation
      → IsTouched (header_at r i) k
      → IsValid (put_header r i k) generation
  put-IsValid v t =
      let n : length (put_header r i k).headers ≡ length r.headers = length-set r.headers i k in
      record {
        some_slot = omega (arith, n, v.some_slot);
        small = omega (arith, n, v.small);
        write_in = omega (arith, n, v.write_in);
        layout = omega (arith, n, v.layout);
        ordered = λ p q a b.
            omega (
              arith,
              capture-put t.same_capture p,
              capture-put t.same_capture q,
              v.ordered p q a b,
            );
        newest = λ p b. omega (arith, capture-put t.same_capture p, v.newest p b);
        older = λ j. ground (arith, at_put j, v.older i, v.older j);
        pinned = λ j b. ground (arith, at_put j, t.pins_ready, v.pinned j, t.same_generation);
        unused = λ j b. elim (Bool-cases (i == j)) [
          | inr e ↦ at_put j ∙ ground (arith, v.unused j b)
          | inl e ↦ absurd (t.in_use (free_slot j e (v.unused j b)))
        ];
      }
