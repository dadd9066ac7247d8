-- ===== src/Annexb/Complete.antt =====
-- What src/annexb.cpp's Split finds: all the units, and nothing else.
use obs_trigglow_dynamic_del.Prelude.{
  ℕ, zero, suc, ◌+◌, ◌≤◌, ◌<◌, ◌≡◌, refl, ap, sym, subst, ==_iff, ◌∙◌, Bool, true, false, not, ◌||◌,
  ◌≢◌, Option, none, some, List, [], ◌∷◌, ◌++◌, ◌==◌, ltb, leb, if◌then◌else◌, Bool-cases, inl, inr,
  length, arith,
}
use obs_trigglow_dynamic_del.Select.{CodecId}
use obs_trigglow_dynamic_del.Annexb.{
  Nal, byte_at, code_at, begin_at, nal_at, end_with, as_list, scan, split,
}
use obs_trigglow_dynamic_del.Annexb.Units.{IsSplit, scan_splits}

-- Some unit of the list has its header there.
abbrev pub has_header_at : ℕ → List Nal → Bool
has_header_at h [] = false
has_header_at h (nal ∷ nals) = nal.header == h || has_header_at h nals

has_header_at-append :
    (h : ℕ) (xs ys : List Nal) → has_header_at h ys ≡ true → has_header_at h (xs ++ ys) ≡ true
has_header_at-append h [] ys e = e
has_header_at-append h (x ∷ xs) ys e = ground (arith, has_header_at-append h xs ys e)

same_number : (n : ℕ) → (n == n) ≡ true
same_number n = (==_iff n n).1 refl

has-if :
    (h : ℕ) (b : Bool) (x y : List Nal)
    → (b ≡ true → has_header_at h x ≡ true)
    → (b ≡ false → has_header_at h y ≡ true)
    → has_header_at h (if b then x else y) ≡ true
has-if h true x y e k = e refl
has-if h false x y e k = k refl

code_bytes :
    (bytes : List ℕ) (i : ℕ)
    → code_at bytes i ≡ true
    → (byte_at bytes i ≡ 0) × (byte_at bytes (i + 1) ≡ 0) × (byte_at bytes (i + 2) ≡ 1)
unfolding code_at
code_bytes bytes i c = ground (arith, c)

-- Start codes do not overlap.
code_apart :
    (bytes : List ℕ) (i p : ℕ)
    → code_at bytes i ≡ true
    → code_at bytes p ≡ true
    → i ≤ p
    → (p == i) ≡ false
    → i + 3 ≤ p
code_apart bytes i p c e l d =
    let (first, second, third) = code_bytes bytes i c in
    let (zero_first, zero_second, one_third) = code_bytes bytes p e in
    elim (Bool-cases (p == i + 1)) [
      | inl one ↦
          let place : p + 1 ≡ i + 2 = ground (arith, one) in
          let clash = sym third ∙ ap (byte_at bytes) (sym place) ∙ zero_second in
          absurd (omega (arith, clash))
      | inr not_one ↦ elim (Bool-cases (p == i + 2)) [
        | inl two ↦
            let clash =
              sym third ∙ ap (byte_at bytes) (sym ((==_iff p (i + 2)).0 two)) ∙ zero_first in
            absurd (omega (arith, clash))
        | inr not_two ↦ ground (arith, l, d, not_one, not_two)
      ]
    ]

other_place : (bytes : List ℕ) (i p : ℕ) → code_at bytes i ≡ false → code_at bytes p ≡ true → p ≢ i
other_place bytes i p n c e = absurd (ground (arith, sym (ap (code_at bytes) e) ∙ c, n))

module _ (codec : CodecId) (bytes : List ℕ) where
  -- The open unit is one of the units.
  scan_keeps :
      (fuel i : ℕ) (nal : Nal)
      → has_header_at nal.header (scan codec bytes fuel i (some nal)) ≡ true
  unfolding scan
  scan_keeps zero i nal = rw (same_number nal.header) refl
  scan_keeps (suc fuel) i nal =
      let self = same_number nal.header in
      let new = nal_at codec bytes i in
      let rest : Bool → List Nal = λ found.
        scan codec bytes fuel (if found then i + 3 else i + 1)
          (if found then some new else some nal) in
      has-if nal.header (not (ltb (i + 2) (length bytes))) (nal ∷ []) _ (λ e. rw self refl)
        λ e.
          has-if nal.header (not (code_at bytes i)) (rest (code_at bytes i)) _
            (λ e.
              let none_here : code_at bytes i ≡ false = ground (arith, e) in
              subst (λ found. has_header_at nal.header (rest found) ≡ true) (sym none_here)
                (scan_keeps fuel (i + 1) nal))
            λ e.
              has-if nal.header (leb (length bytes) (i + 3)) _ _ (λ e. rw self refl)
                λ e. rw self refl

  scan_finds :
      (fuel i : ℕ) (o : Option Nal) (p : ℕ)
      → length bytes ≤ fuel + i
      → i ≤ p
      → p + 3 < length bytes
      → code_at bytes p ≡ true
      → has_header_at (p + 3) (scan codec bytes fuel i o) ≡ true
  unfolding scan
  scan_finds zero i o p l a b c = absurd (omega arith)
  scan_finds (suc fuel) i o p l a b c =
      let new = nal_at codec bytes i in
      let rest : Bool → List Nal = λ found.
        scan codec bytes fuel (if found then i + 3 else i + 1) (if found then some new else o) in
      has-if (p + 3) (not (ltb (i + 2) (length bytes))) (as_list o) _
        (λ e. absurd (ground (arith, e, a, b)))
        λ e.
          has-if (p + 3) (not (code_at bytes i)) (rest (code_at bytes i)) _
            (λ e.
              let none_here : code_at bytes i ≡ false = ground (arith, e) in
              subst (λ found. has_header_at (p + 3) (rest found) ≡ true) (sym none_here)
                (scan_finds fuel (i + 1) o p (omega arith)
                  (omega (arith, a, other_place bytes i p none_here c)) b c))
            λ e.
              let here : code_at bytes i ≡ true = ground (arith, e) in
              has-if (p + 3) (leb (length bytes) (i + 3)) _ _
                (λ e. absurd (ground (arith, e, a, b)))
                λ e.
                  has_header_at-append (p + 3) (end_with (begin_at bytes i) o)
                    (rest (code_at bytes i))
                    (subst (λ found. has_header_at (p + 3) (rest found) ≡ true) (sym here)
                      (elim (Bool-cases (p == i)) [
                        | inl same ↦
                            let place : p + 3 ≡ i + 3 = ground (arith, same) in
                            rw place (scan_keeps fuel (i + 3) new)
                        | inr other ↦
                            scan_finds fuel (i + 3) (some new) p (omega arith)
                              (code_apart bytes i p here c a other) b c
                      ]))

-- The units of a packet follow each other without a gap; each begins with its start code of three or
-- four bytes, has a header inside the packet that its type is read from, and holds no other start code
-- up to its end, which is within the packet; and every start code of a packet of four bytes or more
-- that a header follows is that of a unit.
pub split-IsSplit :
    (codec : CodecId) (bytes : List ℕ) (p : ℕ)
    → code_at bytes p ≡ true
    → p + 3 < length bytes
    → IsSplit codec bytes (split codec (some bytes))
      × (has_header_at (p + 3) (split codec (some bytes)) ≡ true)
unfolding split
split-IsSplit codec bytes p c b =
    let long : ltb (length bytes) 4 ≡ false = ground (arith, b) in
    rw long (
      (scan_splits codec bytes (length bytes) 0 none (omega arith) refl).0,
      scan_finds codec bytes (length bytes) 0 none p (omega arith) (omega arith) b c,
    )
