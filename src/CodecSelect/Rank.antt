-- ===== src/CodecSelect/Rank.antt =====
-- Which candidates the ranking of src/storage-codec-select.cpp has, and in which order.
use obs_trigglow_dynamic_del.Prelude.{
  ◌≡◌, refl, ap, subst, ◌∙◌, sym, ◌↔◌, inl, inr, Bool, true, false, not, ◌&&◌, List, [], ◌∷◌, ◌||◌,
  ltb, length, is_empty, Bool-cases, arith, if◌then◌else◌,
}
use obs_trigglow_dynamic_del.BufferMode.Texts.{mem_text, EncoderFamily, nvenc}
use obs_trigglow_dynamic_del.CodecSelect.Members.{
  IsIn, here, there, IsIn-first, IsIn-later, stable_partition-IsIn, mem_vendor-IsIn,
}
use obs_trigglow_dynamic_del.CodecSelect.{
  HwCandidate, Known, known_candidates, RankInput, is_auto, nvenc_allowed, candidate_for,
  mem_vendor, same_family, family_of, count_family, is_nvenc_backend, is_qsv_backend, collect, keep,
  stable_partition, rank_candidates,
}

-- What RankCandidates asks of a known encoder.
abbrev pub is_allowed : RankInput → Known → Bool
is_allowed i k =
    mem_vendor k.vendor i.vendors
    && not (is_nvenc_backend k.backend && not (nvenc_allowed i))
    && not (is_qsv_backend k.backend && not i.quick_sync_allowed)
    && not (mem_text k.encoder i.blacklist)

abbrev pub is_ranked : RankInput → Bool
is_ranked i = is_auto i.mode && i.workers && i.platform_supported

-- The guards of the loop, as one test.
pub collect-cons :
    (i : RankInput) (k : Known) (table : List Known)
    → collect i (k ∷ table)
      ≡ (if is_allowed i k then candidate_for i k ∷ collect i table else collect i table)
unfolding collect
collect-cons i k table = ground arith

-- Where a candidate comes from.
abbrev pub IsFrom : RankInput → List Known → HwCandidate → Type 0
IsFrom i table c = (k : Known) × IsIn k table × (is_allowed i k ≡ true) × (c ≡ candidate_for i k)

-- The first known encoder is kept or not, as `b` says.
first-IsFrom :
    (i : RankInput) (k : Known) (table : List Known) (c : HwCandidate) (rest : List HwCandidate)
    (b : Bool)
    → is_allowed i k ≡ b
    → (IsIn c rest → IsFrom i table c)
    → IsIn c (if b then candidate_for i k ∷ rest else rest)
    → IsFrom i (k ∷ table) c
first-IsFrom i k table c rest true e later (here h) = (k, here refl, e, h)
first-IsFrom i k table c rest true e later (there m) =
    let (j, n, g, h) = later m in (j, there n, g, h)
first-IsFrom i k table c rest false e later m = let (j, n, g, h) = later m in (j, there n, g, h)

collect-IsFrom :
    (i : RankInput) (table : List Known) (c : HwCandidate)
    → IsIn c (collect i table)
    → IsFrom i table c
unfolding collect
collect-IsFrom i [] c m = elim m [ ]
collect-IsFrom i (k ∷ table) c m =
    first-IsFrom i k table c (collect i table) (is_allowed i k) refl (collect-IsFrom i table c)
      (subst (λ l. IsIn c l) (collect-cons i k table) m)

known-IsIn :
    (i : RankInput) (table : List Known) (k : Known)
    → IsIn k table
    → is_allowed i k ≡ true
    → IsIn (candidate_for i k) (collect i table)
known-IsIn i [] k m g = elim m [ ]
known-IsIn i (j ∷ table) k (here e) g =
    subst (λ l. IsIn (candidate_for i k) l) (sym (collect-cons i j table))
      (IsIn-first (candidate_for i j) (collect i table) (is_allowed i j)
        (ap (is_allowed i) (sym e) ∙ g) (ap (candidate_for i) e))
known-IsIn i (j ∷ table) k (there m) g =
    subst (λ l. IsIn (candidate_for i k) l) (sym (collect-cons i j table))
      (IsIn-later (candidate_for i j) (collect i table) (is_allowed i j) (known-IsIn i table k m g))

collect-IsIn :
    (i : RankInput) (c : HwCandidate)
    → IsIn c (collect i known_candidates) ↔ IsFrom i known_candidates c
collect-IsIn i c = (
  collect-IsFrom i known_candidates c,
  λ (k, m, g, e).
      subst (λ x. IsIn x (collect i known_candidates)) (sym e)
        (known-IsIn i known_candidates k m g),
)

-- The guards before the loop, as one test.
pub rank-if :
    (i : RankInput)
    → rank_candidates i ≡ (
        if is_ranked i
        then stable_partition (λ c. not c.shares_engine) (collect i known_candidates)
        else [])
unfolding rank_candidates
rank-if i = elim (Bool-cases (is_auto i.mode)) [
  | inl a ↦ elim (Bool-cases i.workers) [
    | inl w ↦ elim (Bool-cases i.platform_supported) [
      | inl p ↦ rw (a, w, p) refl
      | inr p ↦ rw (a, w, p) refl
    ]
    | inr w ↦ rw (a, w) refl
  ]
  | inr a ↦ rw a refl
]

guarded-IsIn :
    (i : RankInput) (c : HwCandidate) (l : List HwCandidate) (b : Bool)
    → is_ranked i ≡ b
    → (IsIn c l ↔ IsFrom i known_candidates c)
    → IsIn c (if b then l else []) ↔ ((is_ranked i ≡ true) × IsFrom i known_candidates c)
guarded-IsIn i c l true e p = (λ m. (e, p.0 m), λ (g, f). p.1 f)
guarded-IsIn i c l false e p = (λ m. elim m [ ], λ (g, f). absurd (ground (arith, e, g)))

pub rank_candidates-IsFrom :
    (i : RankInput) (c : HwCandidate)
    → IsIn c (rank_candidates i) ↔ ((is_ranked i ≡ true) × IsFrom i known_candidates c)
rank_candidates-IsFrom i c =
    let part = stable_partition-IsIn (λ x. not x.shares_engine) (collect i known_candidates) c in
    let from = collect-IsIn i c in
    subst (λ l. IsIn c l ↔ ((is_ranked i ≡ true) × IsFrom i known_candidates c)) (sym (rank-if i))
      (guarded-IsIn i c _ (is_ranked i) refl (λ m. from.0 (part.0 m), λ f. part.1 (from.1 f)))

-- The encoders of OBS that are of a family.
abbrev pub of_family : EncoderFamily → List EncoderFamily → List EncoderFamily
of_family wanted families = keep (λ f. same_family f wanted) families

abbrev pub is_nvenc : EncoderFamily → Bool
is_nvenc nvenc = true
is_nvenc _ = false

-- NVENC has no more than three encoders of OBS running, if they are known, Quick Sync may be used, and
-- the encoder did not fail before.
abbrev pub is_worthwhile : RankInput → Known → Bool
is_worthwhile i k =
    (not (is_nvenc_backend k.backend)
      || not i.obs_encoders_known
      || ltb (length (keep is_nvenc i.obs_encoders)) 4)
    && (not (is_qsv_backend k.backend) || i.quick_sync_allowed)
    && not (mem_text k.encoder i.blacklist)

-- Its candidate, which shares the engine when OBS's encoders are not known or one is of its family.
abbrev pub described : RankInput → Known → HwCandidate
described i k = record {
  encoder = k.encoder;
  codec = k.codec;
  backend = k.backend;
  vendor = k.vendor;
  shares_engine =
      not i.obs_encoders_known || not (is_empty (of_family (family_of k.backend) i.obs_encoders));
}

count_family-length :
    (families : List EncoderFamily) (wanted : EncoderFamily)
    → count_family families wanted ≡ length (of_family wanted families)
unfolding count_family
count_family-length [] wanted = refl
count_family-length (f ∷ families) wanted = ground (arith, count_family-length families wanted)

some_length : (families : List EncoderFamily) → ltb 0 (length families) ≡ not (is_empty families)
some_length [] = refl
some_length (f ∷ families) = ground arith

nvenc_count :
    (families : List EncoderFamily) → count_family families nvenc ≡ length (keep is_nvenc families)
unfolding count_family
nvenc_count [] = refl
nvenc_count (f ∷ families) = ground (arith, nvenc_count families)

is_allowed-is_worthwhile :
    (i : RankInput) (k : Known)
    → is_allowed i k ≡ (mem_vendor k.vendor i.vendors && is_worthwhile i k)
unfolding nvenc_allowed
is_allowed-is_worthwhile i k = ground (arith, nvenc_count i.obs_encoders)

candidate_for-described : (i : RankInput) (k : Known) → candidate_for i k ≡ described i k
unfolding candidate_for
candidate_for-described i k =
    let family = family_of k.backend in
    let some =
      ap (ltb 0) (count_family-length i.obs_encoders family)
      ∙ some_length (of_family family i.obs_encoders) in
    ap (λ b. record (described i k) { shares_engine = not i.obs_encoders_known || b }) some

-- A known encoder whose GPU is there, and that is worth probing, has this candidate.
abbrev pub IsWorthwhile : RankInput → HwCandidate → Type 0
IsWorthwhile i c =
    (k : Known) × IsIn k known_candidates
    × IsIn k.vendor i.vendors
    × (is_worthwhile i k ≡ true)
    × (c ≡ described i k)

-- The candidates that RankCandidates returns are exactly those of the known encoders whose vendor is
-- present, that are not blacklisted, with NVENC while OBS runs three of its encoders at most, or its
-- encoders are not known, and Quick Sync while it is allowed; each shares its engine when OBS's encoders
-- are not known or one is of its family. None with buffer_codec=mjpeg, without workers or off the
-- platform.
pub rank_candidates-IsIn :
    (i : RankInput) (c : HwCandidate)
    → IsIn c (rank_candidates i) ↔ ((is_ranked i ≡ true) × IsWorthwhile i c)
rank_candidates-IsIn i c =
    let from = rank_candidates-IsFrom i c in
    (
      λ m.
          let (r, (k, n, a, e)) = from.0 m in
          let both = sym (is_allowed-is_worthwhile i k) ∙ a in
          (
            r,
            (
              k,
              n,
              (mem_vendor-IsIn k.vendor i.vendors).0 (ground (arith, both)),
              ground (arith, both),
              e ∙ candidate_for-described i k,
            ),
          ),
      λ (r, (k, n, v, w, e)).
          let there_is = (mem_vendor-IsIn k.vendor i.vendors).1 v in
          from.1 (
            r,
            (
              k,
              n,
              is_allowed-is_worthwhile i k ∙ ground (arith, there_is, w),
              e ∙ sym (candidate_for-described i k),
            ),
          ),
    )
