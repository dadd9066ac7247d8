-- ===== src/CodecSelect/Members.antt =====
-- Members of the lists of src/storage-codec-select.cpp.
use obs_trigglow_dynamic_del.Prelude.{
  ◌≡◌, ap, ◌∙◌, sym, ◌↔◌, ◌⊎◌, inl, inr, Bool, true, false, not, List, [], ◌∷◌, ◌++◌, Bool-cases,
  arith, if◌then◌else◌,
}
use obs_trigglow_dynamic_del.CodecSelect.{
  GpuVendor, same_vendor, mem_vendor, keep, stable_partition,
}

-- A member of a list.
pub data IsIn {ℓ} {A : Type ℓ} (x : A) : List A → Type ℓ where
  here : {y : A} {ys : List A} → x ≡ y → IsIn x (y ∷ ys)
  there : {y : A} {ys : List A} → IsIn x ys → IsIn x (y ∷ ys)

module _ {ℓ} {A : Type ℓ} where
  pub IsIn-append_left : {x : A} {xs : List A} (ys : List A) → IsIn x xs → IsIn x (xs ++ ys)
  IsIn-append_left ys (here e) = here e
  IsIn-append_left ys (there i) = there (IsIn-append_left ys i)

  pub IsIn-append_right : {x : A} (xs : List A) {ys : List A} → IsIn x ys → IsIn x (xs ++ ys)
  IsIn-append_right [] i = i
  IsIn-append_right (z ∷ xs) i = there (IsIn-append_right xs i)

  pub IsIn-append : {x : A} (xs ys : List A) → IsIn x (xs ++ ys) → IsIn x xs ⊎ IsIn x ys
  IsIn-append [] ys i = inr i
  IsIn-append (z ∷ xs) ys (here e) = inl (here e)
  IsIn-append (z ∷ xs) ys (there i) = elim (IsIn-append xs ys i) [
    | inl j ↦ inl (there j)
    | inr j ↦ inr j
  ]

  -- A list whose first element is kept or not.
  pub IsIn-thinned :
      {x : A} (y : A) (xs : List A) (b : Bool) → IsIn x (if b then y ∷ xs else xs) → IsIn x (y ∷ xs)
  IsIn-thinned y xs true i = i
  IsIn-thinned y xs false i = there i

  pub IsIn-first :
      {x : A} (y : A) (xs : List A) (b : Bool)
      → b ≡ true
      → x ≡ y
      → IsIn x (if b then y ∷ xs else xs)
  IsIn-first y xs true h e = here e
  IsIn-first y xs false h e = absurd (ground arith)

  pub IsIn-later :
      {x : A} (y : A) (xs : List A) (b : Bool) → IsIn x xs → IsIn x (if b then y ∷ xs else xs)
  IsIn-later y xs true i = there i
  IsIn-later y xs false i = i

  pub IsIn-kept : {x : A} (p : A → Bool) (xs : List A) → IsIn x (keep p xs) → IsIn x xs
  IsIn-kept p [] i = elim i [ ]
  IsIn-kept p (y ∷ xs) i = elim (IsIn-thinned y (keep p xs) (p y) i) [
    | here e ↦ here e
    | there j ↦ there (IsIn-kept p xs j)
  ]

  pub keep-IsIn : {x : A} (p : A → Bool) (xs : List A) → p x ≡ true → IsIn x xs → IsIn x (keep p xs)
  keep-IsIn p [] h i = elim i [ ]
  keep-IsIn p (y ∷ xs) h (here e) = IsIn-first y (keep p xs) (p y) (ap p (sym e) ∙ h) e
  keep-IsIn p (y ∷ xs) h (there i) = IsIn-later y (keep p xs) (p y) (keep-IsIn p xs h i)

  -- A stable partition has the members of the list.
  pub stable_partition-IsIn :
      (p : A → Bool) (xs : List A) (x : A) → IsIn x (stable_partition p xs) ↔ IsIn x xs
  stable_partition-IsIn p xs x = (
    λ i. elim (IsIn-append (keep p xs) (keep (λ y. not (p y)) xs) i) [
      | inl j ↦ IsIn-kept p xs j
      | inr j ↦ IsIn-kept (λ y. not (p y)) xs j
    ],
    λ i. elim (Bool-cases (p x)) [
      | inl h ↦ IsIn-append_left (keep (λ y. not (p y)) xs) (keep-IsIn p xs h i)
      | inr h ↦ IsIn-append_right (keep p xs) (keep-IsIn (λ y. not (p y)) xs (ap not h) i)
    ],
  )

same_vendor_equal : (x y : GpuVendor) → same_vendor x y ≡ true → x ≡ y
same_vendor_equal x y e = ground (arith, e)

same_vendor_refl : (x : GpuVendor) → same_vendor x x ≡ true
same_vendor_refl x = ground arith

pub mem_vendor-IsIn :
    (v : GpuVendor) (vendors : List GpuVendor) → (mem_vendor v vendors ≡ true) ↔ IsIn v vendors
mem_vendor-IsIn v [] = (λ e. absurd (ground (arith, e)), λ i. elim i [ ])
mem_vendor-IsIn v (x ∷ vendors) = (
  λ e. elim (Bool-cases (same_vendor x v)) [
    | inl h ↦ here (sym (same_vendor_equal x v h))
    | inr h ↦ there ((mem_vendor-IsIn v vendors).0 (ground (arith, e, h)))
  ],
  λ i. elim i [
    | here h ↦ ground (arith, ap (λ y. same_vendor x y) h ∙ same_vendor_refl x)
    | there j ↦ ground (arith, (mem_vendor-IsIn v vendors).1 j)
  ],
)
