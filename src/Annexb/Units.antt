-- ===== src/Annexb/Units.antt =====
-- The units that src/annexb.cpp's Split finds.
use obs_trigglow_dynamic_del.Prelude.{
  ℕ, zero, suc, ◌+◌, ◌-◌, ◌≤◌, ◌<◌, ◌≡◌, refl, ap, sym, subst, ==_iff, ◌∙◌, Bool, true, false, not,
  Option, none, some, List, [], ◌∷◌, ◌++◌, ◌==◌, ltb, leb, if◌then◌else◌, Bool-cases, inl, inr,
  length, arith,
}
use obs_trigglow_dynamic_del.Select.{CodecId}
use obs_trigglow_dynamic_del.Annexb.{
  Nal, byte_at, code_at, begin_at, nal_type, nal_at, end_with, as_list, scan,
}

module _ (codec : CodecId) (bytes : List ℕ) where
  -- No start code lies between the two positions.
  abbrev pub IsFree : ℕ → ℕ → Type 0
  IsFree a b = (p : ℕ) → a ≤ p → p + 3 ≤ b → code_at bytes p ≡ false

  -- A unit: its header follows a start code, at most four bytes after its begin, and it goes on up to
  -- its end without another.
  pub record IsNal (nal : Nal) : Type 0 where
    pub after_code : code_at bytes (nal.header - 3) ≡ true
    pub code_bytes : (nal.begin + 3 ≤ nal.header) × (nal.header ≤ nal.begin + 4)
    pub has_header : nal.header < length bytes
    pub ends : (nal.header ≤ nal.end) × (nal.end ≤ length bytes)
    pub type_of : nal.type ≡ nal_type codec (byte_at bytes nal.header)
    pub free : IsFree nal.header nal.end

  -- Units without a gap between them.
  abbrev pub IsSplit : List Nal → Type 0
  IsSplit [] = ◌≡◌ {A = List Nal} [] []
  IsSplit (nal ∷ []) = IsNal nal
  IsSplit (nal ∷ next ∷ rest) = IsNal nal × (next.begin ≡ nal.end) × IsSplit (next ∷ rest)

  -- The open unit at `i`: free of start codes up to there.
  pub record IsOpen (i : ℕ) (nal : Nal) : Type 0 where
    pub code : code_at bytes (nal.header - 3) ≡ true
    pub widths : (nal.begin + 3 ≤ nal.header) × (nal.header ≤ nal.begin + 4)
    pub header_in : nal.header < length bytes
    pub passed : nal.header ≤ i
    pub last : nal.end ≡ length bytes
    pub named : nal.type ≡ nal_type codec (byte_at bytes nal.header)
    pub seen : (p : ℕ) → nal.header ≤ p → p < i → code_at bytes p ≡ false

  begin_bounds : (i : ℕ) → (begin_at bytes i ≤ i) × (i ≤ begin_at bytes i + 1)
  unfolding begin_at
  begin_bounds i = ground arith

  begin_after : (i : ℕ) (nal : Nal) → IsOpen i nal → nal.header ≤ begin_at bytes i
  unfolding begin_at code_at
  begin_after i nal o = ground (arith, o.code, o.passed, o.widths)

  IsNal-closed :
      (i : ℕ) (nal : Nal)
      → i ≤ length bytes
      → IsOpen i nal
      → IsNal (record nal { end = begin_at bytes i })
  IsNal-closed i nal l o =
      let (low, high) = begin_bounds i in
      record {
        after_code = o.code;
        code_bytes = o.widths;
        has_header = o.header_in;
        ends = (begin_after i nal o, omega (arith, l, low));
        type_of = o.named;
        free = λ p a b. o.seen p a (omega (arith, b, low));
      }

  IsNal-last : (i : ℕ) (nal : Nal) → length bytes ≤ i + 2 → IsOpen i nal → IsNal nal
  IsNal-last i nal l o = record {
    after_code = o.code;
    code_bytes = o.widths;
    has_header = o.header_in;
    ends = (omega (arith, o.last, o.header_in), omega (arith, o.last));
    type_of = o.named;
    free = λ p a b. o.seen p a (omega (arith, b, l, o.last));
  }

  IsOpen-at :
      (i : ℕ)
      → code_at bytes i ≡ true
      → i + 3 < length bytes
      → IsOpen (i + 3) (nal_at codec bytes i)
  IsOpen-at i c h =
      let (low, high) = begin_bounds i in
      let same : i + 3 - 3 ≡ i = omega arith in
      record {
        code = ap (code_at bytes) same ∙ c;
        widths = (omega (arith, low), omega (arith, high));
        header_in = h;
        passed = omega arith;
        last = refl;
        named = refl;
        seen = λ p a b. absurd (omega (arith, a, b));
      }

  IsOpen-next : (i : ℕ) (nal : Nal) → code_at bytes i ≡ false → IsOpen i nal → IsOpen (i + 1) nal
  IsOpen-next i nal c o = record {
    code = o.code;
    widths = o.widths;
    header_in = o.header_in;
    passed = omega (arith, o.passed);
    last = o.last;
    named = o.named;
    seen = λ p a b. elim (Bool-cases (p == i)) [
      | inl e ↦ ap (code_at bytes) ((==_iff p i).0 e) ∙ c
      | inr e ↦ o.seen p a (ground (arith, b, e))
    ];
  }

  abbrev pub OpenAt : ℕ → Option Nal → Type 0
  OpenAt i none = i ≡ i
  OpenAt i (some nal) = IsOpen i nal

  OpenAt-next : (i : ℕ) (o : Option Nal) → code_at bytes i ≡ false → OpenAt i o → OpenAt (i + 1) o
  OpenAt-next i none c h = refl
  OpenAt-next i (some nal) c h = IsOpen-next i nal c h

  -- The list begins where the open unit does.
  abbrev pub Begins : Option Nal → List Nal → Type 0
  Begins none list = list ≡ list
  Begins (some nal) [] = ⊥
  Begins (some nal) (first ∷ rest) = first.begin ≡ nal.begin

  abbrev pub IsScan : Option Nal → List Nal → Type 0
  IsScan o list = IsSplit list × Begins o list

  pub IsScan-if :
      (o : Option Nal) (b : Bool) (x y : List Nal)
      → (b ≡ true → IsScan o x)
      → (b ≡ false → IsScan o y)
      → IsScan o (if b then x else y)
  IsScan-if o true x y h k = h refl
  IsScan-if o false x y h k = k refl

  IsScan-as_list :
      (i : ℕ) (o : Option Nal) → length bytes ≤ i + 2 → OpenAt i o → IsScan o (as_list o)
  IsScan-as_list i none l h = (refl, refl)
  IsScan-as_list i (some nal) l h = (IsNal-last i nal l h, refl)

  IsScan-end_with :
      (i : ℕ) (o : Option Nal)
      → i ≤ length bytes
      → OpenAt i o
      → IsScan o (end_with (begin_at bytes i) o)
  IsScan-end_with i none l h = (refl, refl)
  IsScan-end_with i (some nal) l h = (IsNal-closed i nal l h, refl)

  IsScan-append :
      (i : ℕ) (o : Option Nal) (new : Nal) (rest : List Nal)
      → i ≤ length bytes
      → new.begin ≡ begin_at bytes i
      → OpenAt i o
      → IsScan (some new) rest
      → IsScan o (end_with (begin_at bytes i) o ++ rest)
  IsScan-append i none new rest l b h s = (s.0, refl)
  IsScan-append i (some nal) new [] l b h s = absurd s.1
  IsScan-append i (some nal) new (first ∷ rest) l b h s =
      ((IsNal-closed i nal l h, s.1 ∙ b, s.0), refl)

  pub scan_splits :
      (fuel i : ℕ) (o : Option Nal)
      → length bytes ≤ fuel + i
      → OpenAt i o
      → IsScan o (scan codec bytes fuel i o)
  unfolding scan
  scan_splits zero i o l h = IsScan-as_list i o (omega arith) h
  scan_splits (suc fuel) i o l h =
      let new = nal_at codec bytes i in
      let rest : Bool → List Nal = λ found.
        scan codec bytes fuel (if found then i + 3 else i + 1) (if found then some new else o) in
      IsScan-if o (not (ltb (i + 2) (length bytes))) (as_list o) _
        (λ short. IsScan-as_list i o (ground (arith, short)) h)
        λ long.
          IsScan-if o (not (code_at bytes i)) (rest (code_at bytes i)) _
            (λ e.
              let none_here : code_at bytes i ≡ false = ground (arith, e) in
              subst (λ found. IsScan o (rest found)) (sym none_here)
                (scan_splits fuel (i + 1) o (omega arith) (OpenAt-next i o none_here h)))
            λ e.
              IsScan-if o (leb (length bytes) (i + 3)) (end_with (begin_at bytes i) o) _
                (λ cut. IsScan-end_with i o (ground (arith, long)) h)
                λ whole.
                  let here : code_at bytes i ≡ true = ground (arith, e) in
                  subst (λ found. IsScan o (end_with (begin_at bytes i) o ++ rest found)) (sym here)
                    (IsScan-append i o new (rest true) (ground (arith, long)) refl h (
                      scan_splits fuel (i + 3) (some new) (omega arith)
                        (IsOpen-at i here (ground (arith, whole)))))
