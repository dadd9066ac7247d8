-- ===== src/CodecSelect/Order.antt =====
-- The order of the ranking of src/storage-codec-select.cpp, and what it calls a shared engine.
use obs_trigglow_dynamic_del.Prelude.{
  ◌≡◌, refl, ap, ap₂, subst, ◌∙◌, sym, Bool, true, false, not, ◌||◌, List, [], ◌∷◌, ◌++◌, map,
  if_true, Bool-cases, inl, inr, arith, if◌then◌else◌,
}
use mathlib.Core.List.{append-nil}
use obs_trigglow_dynamic_del.CodecSelect.{
  GpuVendor, HwCandidate, Known, known_candidates, RankInput, candidate_for, collect, keep,
  stable_partition, rank_candidates, compute_engine_share, family_of, is_engine,
}
use obs_trigglow_dynamic_del.CodecSelect.Members.{IsIn, here, there}
use obs_trigglow_dynamic_del.CodecSelect.Rank.{
  is_allowed, collect-cons, is_ranked, rank-if, rank_candidates-IsFrom,
}

module _ {A : Type 0} (p : A → Bool) where
  -- All of a list, or none of it, passes the test.
  abbrev pub All : Bool → List A → Type 0
  All b [] = Unit
  All b (x ∷ xs) = (p x ≡ b) × All b xs

  -- What passes comes first.
  abbrev pub IsFirst : List A → Type 0
  IsFirst [] = Unit
  IsFirst (x ∷ xs) = (p x ≡ false → All false xs) × IsFirst xs

  IsFirst-fails : (xs : List A) → All false xs → IsFirst xs
  IsFirst-fails [] h = tt
  IsFirst-fails (x ∷ xs) h = (λ e. h.1, IsFirst-fails xs h.1)

  IsFirst-append : (xs ys : List A) → All true xs → All false ys → IsFirst (xs ++ ys)
  IsFirst-append [] ys h g = IsFirst-fails ys g
  IsFirst-append (x ∷ xs) ys h g =
      (λ e. absurd (ground (arith, e, h.0)), IsFirst-append xs ys h.1 g)

  All-if :
      (b c : Bool) (x : A) (xs : List A)
      → (c ≡ true → p x ≡ b)
      → All b xs
      → All b (if c then x ∷ xs else xs)
  All-if b true x xs h g = (h refl, g)
  All-if b false x xs h g = g

  All-kept : (xs : List A) → All true (keep p xs)
  All-kept [] = tt
  All-kept (x ∷ xs) = All-if true (p x) x (keep p xs) (λ e. e) (All-kept xs)

  All-left : (xs : List A) → All false (keep (λ x. not (p x)) xs)
  All-left [] = tt
  All-left (x ∷ xs) =
      All-if false (not (p x)) x (keep (λ y. not (p y)) xs) (λ e. ground (arith, e)) (All-left xs)

  stable_partition-IsFirst : (xs : List A) → IsFirst (stable_partition p xs)
  stable_partition-IsFirst xs = IsFirst-append _ _ (All-kept xs) (All-left xs)

  -- A test finds in a partition what it finds in the list, in the same order.
  keep-All : (xs : List A) → All true xs → keep p xs ≡ xs
  keep-All [] h = refl
  keep-All (x ∷ xs) h = rw (h.0) (ap (λ l. x ∷ l) (keep-All xs h.1))

  keep-none : (xs : List A) → All false xs → keep p xs ≡ []
  keep-none [] h = refl
  keep-none (x ∷ xs) h = rw (h.0) (keep-none xs h.1)

  keep-append : (xs ys : List A) → keep p (xs ++ ys) ≡ keep p xs ++ keep p ys
  keep-append [] ys = refl
  keep-append (x ∷ xs) ys = elim (Bool-cases (p x)) [
    | inl e ↦ rw e (ap (λ l. x ∷ l) (keep-append xs ys))
    | inr e ↦ rw e (keep-append xs ys)
  ]

  keep-stable_partition : (xs : List A) → keep p (stable_partition p xs) ≡ keep p xs
  keep-stable_partition xs =
      keep-append (keep p xs) (keep (λ x. not (p x)) xs)
      ∙ ap₂ (λ l m. l ++ m) (keep-All (keep p xs) (All-kept xs)) (keep-none _ (All-left xs))
      ∙ append-nil (keep p xs)

module _ {A : Type 0} (p : A → Bool) where
  All-not : (b : Bool) (xs : List A) → All p b xs → All (λ x. not (p x)) (not b) xs
  All-not b [] h = tt
  All-not b (x ∷ xs) h = (ap not h.0, All-not b xs h.1)

  keep-stable_rest :
      (xs : List A) → keep (λ x. not (p x)) (stable_partition p xs) ≡ keep (λ x. not (p x)) xs
  keep-stable_rest xs =
      let q : A → Bool = λ x. not (p x) in
      keep-append q (keep p xs) (keep q xs)
      ∙ ap₂ (λ l m. l ++ m) (keep-none q (keep p xs) (All-not true (keep p xs) (All-kept p xs)))
          (keep-All q (keep q xs) (All-kept q xs))

-- The allowed encoders in the order of the table.
abbrev pub in_table_order : RankInput → List HwCandidate
in_table_order i = map (candidate_for i) (keep (is_allowed i) known_candidates)

collect-map :
    (i : RankInput) (table : List Known)
    → collect i table ≡ map (candidate_for i) (keep (is_allowed i) table)
unfolding collect
collect-map i [] = refl
collect-map i (k ∷ table) = elim (Bool-cases (is_allowed i k)) [
  | inl e ↦ collect-cons i k table ∙ rw e (ap (λ l. candidate_for i k ∷ l) (collect-map i table))
  | inr e ↦ collect-cons i k table ∙ rw e (collect-map i table)
]

abbrev pub is_alone : HwCandidate → Bool
is_alone c = not c.shares_engine

-- The order of a ranking: engines that OBS does not use first, and each part in the table's order.
pub record IsOrdered (i : RankInput) (l : List HwCandidate) : Type 0 where
  pub alone_first : IsFirst is_alone l
  pub alone : keep is_alone l ≡ keep is_alone (in_table_order i)
  pub shared : keep (λ c. not (is_alone c)) l ≡ keep (λ c. not (is_alone c)) (in_table_order i)

-- In a ranking that is not switched off the candidates on an engine that OBS does not use come before
-- all that share one, and in both parts the order is that of the table of known encoders.
pub rank_candidates-IsOrdered :
    (i : RankInput) → is_ranked i ≡ true → IsOrdered i (rank_candidates i)
rank_candidates-IsOrdered i r =
    let l = collect i known_candidates in
    let ranked : rank_candidates i ≡ stable_partition is_alone l =
      rank-if i ∙ if_true (is_ranked i) _ _ r in
    let table = collect-map i known_candidates in
    subst (IsOrdered i) (sym ranked) (record {
      alone_first = stable_partition-IsFirst is_alone l;
      alone = keep-stable_partition is_alone l ∙ ap (keep is_alone) table;
      shared = keep-stable_rest is_alone l ∙ ap (keep (λ c. not (is_alone c))) table;
    })

-- Every known encoder runs on an engine of its own.
is_engine-known : (k : Known) → IsIn k known_candidates → is_engine (family_of k.backend) ≡ true
is_engine-known k (here e) = ap (λ j. is_engine (family_of j.backend)) e
is_engine-known k (there (here e)) = ap (λ j. is_engine (family_of j.backend)) e
is_engine-known k (there (there (here e))) = ap (λ j. is_engine (family_of j.backend)) e
is_engine-known k (there (there (there (here e)))) = ap (λ j. is_engine (family_of j.backend)) e
is_engine-known k (there (there (there (there (here e))))) =
    ap (λ j. is_engine (family_of j.backend)) e
is_engine-known k (there (there (there (there (there (here e)))))) =
    ap (λ j. is_engine (family_of j.backend)) e
is_engine-known k (there (there (there (there (there (there m)))))) = elim m [ ]

share-known :
    (i : RankInput) (k : Known) (hardware_decode : Bool) (vendor : GpuVendor)
    → is_engine (family_of k.backend) ≡ true
    → (candidate_for i k).shares_engine ≡ (
        not i.obs_encoders_known
        || (compute_engine_share k.backend hardware_decode vendor i.obs_encoders_known
            i.obs_encoders).encode)
unfolding candidate_for compute_engine_share
share-known i k hardware_decode vendor e = ground (arith, e)

-- A ranked candidate is called shared exactly when ComputeEngineShare, for its encoder and whatever
-- decodes, does not know OBS's encoders or finds one of them on the engine.
pub shares-compute_engine_share :
    (i : RankInput) (c : HwCandidate) (hardware_decode : Bool) (vendor : GpuVendor)
    → IsIn c (rank_candidates i)
    → c.shares_engine ≡ (
        not i.obs_encoders_known
        || (compute_engine_share c.backend hardware_decode vendor i.obs_encoders_known
            i.obs_encoders).encode)
unfolding candidate_for
shares-compute_engine_share i c hardware_decode vendor m =
    let (ranked, (k, n, allowed, e)) = (rank_candidates-IsFrom i c).0 m in
    subst
      (λ x. x.shares_engine ≡ (
        not i.obs_encoders_known
        || (compute_engine_share x.backend hardware_decode vendor i.obs_encoders_known
            i.obs_encoders).encode))
      (sym e) (share-known i k hardware_decode vendor (is_engine-known k n))
