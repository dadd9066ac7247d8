-- ===== src/Arena/Held.antt =====
-- The allocations that are held of src/frame-arena.cpp's arena, and lists of block ids.
use obs_trigglow_dynamic_del.Prelude.{
  ℕ, ◌+◌, ◌≤◌, ◌<◌, ◌≡◌, ◌≢◌, ◌⊎◌, inl, inr, refl, sym, subst, ◌∙◌, none, some, List, [], ◌∷◌, ◌++◌,
  false, ◌==◌, if◌then◌else◌, length, get_or, set, last_or, drop_last, is_empty, get_or-set_self,
  get_or-set_ne, Bool-cases, if_true, if_false, arith,
}
use obs_trigglow_dynamic_del.Arena.{Allocation, Block, no_memory}

-- The `data` pointer of an allocation that is held: its first byte in the block, and its end.
abbrev pub start_of : Allocation → ℕ
start_of x = elim x.offset [ none ↦ 0 | some o ↦ o ]

abbrev pub end_of : Allocation → ℕ
end_of x = start_of x + x.bytes

-- How many of them are in block `j`.
abbrev pub held_in : ℕ → List Allocation → ℕ
held_in j [] = 0
held_in j (x ∷ held) = let rest = held_in j held in if x.block == j then rest + 1 else rest

-- All of those in block `j` end at `used`.
abbrev pub EndsBy : ℕ → ℕ → List Allocation → Type 0
EndsBy j used [] = Unit
EndsBy j used (x ∷ held) = (x.block ≡ j → end_of x ≤ used) × EndsBy j used held

pub EndsBy-none : (j used : ℕ) (held : List Allocation) → held_in j held ≡ 0 → EndsBy j used held
EndsBy-none j used [] h = tt
EndsBy-none j used (x ∷ held) h =
    (λ e. absurd (ground (arith, e, h)), EndsBy-none j used held (ground (arith, h)))

pub EndsBy-mono :
    (j used more : ℕ) (held : List Allocation)
    → used ≤ more
    → EndsBy j used held
    → EndsBy j more held
EndsBy-mono j used more [] l h = tt
EndsBy-mono j used more (x ∷ held) l h =
    (λ e. omega (arith, h.0 e, l), EndsBy-mono j used more held l h.1)

-- Two allocations share no byte.
abbrev pub AreApart : Allocation → Allocation → Type 0
AreApart x y = (x.block ≢ y.block) ⊎ (end_of x ≤ start_of y) ⊎ (end_of y ≤ start_of x)

abbrev pub IsApartFrom : Allocation → List Allocation → Type 0
IsApartFrom x [] = Unit
IsApartFrom x (y ∷ held) = AreApart x y × IsApartFrom x held

abbrev pub AllApart : List Allocation → Type 0
AllApart [] = Unit
AllApart (x ∷ held) = IsApartFrom x held × AllApart held

-- What starts where the others of its block end is apart from them.
pub EndsBy-IsApartFrom :
    (x : Allocation) (held : List Allocation)
    → EndsBy x.block (start_of x) held
    → IsApartFrom x held
EndsBy-IsApartFrom x [] h = tt
EndsBy-IsApartFrom x (y ∷ held) h = (
  elim (Bool-cases (x.block == y.block)) [
    | inl e ↦ inr (inr (h.0 (ground (arith, e))))
    | inr e ↦ inl (λ q. ground (arith, e, q))
  ],
  EndsBy-IsApartFrom x held h.1,
)

-- Block ids: none of them is `j`; all are different; all have a property.
abbrev pub Absent : ℕ → List ℕ → Type 0
Absent j [] = Unit
Absent j (i ∷ ids) = (i ≢ j) × Absent j ids

abbrev pub AllDifferent : List ℕ → Type 0
AllDifferent [] = Unit
AllDifferent (i ∷ ids) = Absent i ids × AllDifferent ids

abbrev pub AllIds : (ℕ → Type 0) → List ℕ → Type 0
AllIds P [] = Unit
AllIds P (i ∷ ids) = P i × AllIds P ids

pub AllIds-map :
    (P Q : ℕ → Type 0) (ids : List ℕ) → ((i : ℕ) → P i → Q i) → AllIds P ids → AllIds Q ids
AllIds-map P Q [] f h = tt
AllIds-map P Q (i ∷ ids) f h = (f i h.0, AllIds-map P Q ids f h.1)

-- The same where an id is absent.
pub AllIds-map_off :
    (P Q : ℕ → Type 0) (ids : List ℕ) (j : ℕ)
    → ((i : ℕ) → i ≢ j → P i → Q i)
    → Absent j ids
    → AllIds P ids
    → AllIds Q ids
AllIds-map_off P Q [] j f a h = tt
AllIds-map_off P Q (i ∷ ids) j f a h = (f i a.0 h.0, AllIds-map_off P Q ids j f a.1 h.1)

pub AllIds-snoc :
    (P : ℕ → Type 0) (ids : List ℕ) (j : ℕ) → AllIds P ids → P j → AllIds P (ids ++ j ∷ [])
AllIds-snoc P [] j h p = (p, tt)
AllIds-snoc P (i ∷ ids) j h p = (h.0, AllIds-snoc P ids j h.1 p)

-- An id that has not the property of all is absent.
pub AllIds-Absent :
    (P : ℕ → Type 0) (ids : List ℕ) (j : ℕ) → (P j → j ≢ j) → AllIds P ids → Absent j ids
AllIds-Absent P [] j f h = tt
AllIds-Absent P (i ∷ ids) j f h = (λ e. f (subst P e h.0) refl, AllIds-Absent P ids j f h.1)

Absent-snoc : (ids : List ℕ) (i j : ℕ) → Absent i ids → j ≢ i → Absent i (ids ++ j ∷ [])
Absent-snoc [] i j h n = (n, tt)
Absent-snoc (k ∷ ids) i j h n = (h.0, Absent-snoc ids i j h.1 n)

pub AllDifferent-snoc :
    (ids : List ℕ) (j : ℕ) → AllDifferent ids → Absent j ids → AllDifferent (ids ++ j ∷ [])
AllDifferent-snoc [] j h a = (tt, tt)
AllDifferent-snoc (i ∷ ids) j h a =
    (Absent-snoc ids i j h.0 (λ e. a.0 (sym e)), AllDifferent-snoc ids j h.1 a.1)

-- The last id, taken from a list that has one.
pub AllIds-last :
    (P : ℕ → Type 0) (ids : List ℕ) (d : ℕ)
    → is_empty ids ≡ false
    → AllIds P ids
    → P (last_or ids d) × AllIds P (drop_last ids)
AllIds-last P [] d e h = absurd (ground (arith, e))
AllIds-last P (i ∷ []) d e h = (h.0, tt)
AllIds-last P (i ∷ k ∷ ids) d e h = let r = AllIds-last P (k ∷ ids) i refl h.1 in (r.0, (h.0, r.1))

pub AllDifferent-last :
    (ids : List ℕ) (d : ℕ)
    → is_empty ids ≡ false
    → AllDifferent ids
    → Absent (last_or ids d) (drop_last ids) × AllDifferent (drop_last ids)
AllDifferent-last [] d e h = absurd (ground (arith, e))
AllDifferent-last (i ∷ []) d e h = (tt, tt)
AllDifferent-last (i ∷ k ∷ ids) d e h =
    let first = AllIds-last (λ x. x ≢ i) (k ∷ ids) i refl h.0 in
    let r = AllDifferent-last (k ∷ ids) i refl h.1 in ((λ q. first.0 (sym q), r.0), (first.1, r.1))

-- A block after a write to `id`.
pub block-set :
    (blocks : List Block) (id j : ℕ) (b : Block)
    → id < length blocks
    → get_or (set blocks id b) j no_memory ≡ (if id == j then b else get_or blocks j no_memory)
block-set blocks id j b h = elim (Bool-cases (id == j)) [
  | inl e ↦
      let same : id ≡ j = ground (arith, e) in
      subst
        (λ i.
          get_or (set blocks id b) i no_memory ≡ (if id == i then b else get_or blocks i no_memory))
        same (get_or-set_self blocks id b no_memory h ∙ sym (if_true (id == id) b _ (ground arith)))
  | inr e ↦
      get_or-set_ne blocks id j b no_memory (λ q. ground (arith, e, q))
      ∙ sym (if_false (id == j) b (get_or blocks j no_memory) e)
]
