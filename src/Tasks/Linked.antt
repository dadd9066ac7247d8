-- ===== src/Tasks/Linked.antt =====
-- The tokens of the groups of src/background-tasks.cpp and their subscriptions to the registry's.
use obs_trigglow_dynamic_del.Prelude.{
  ℕ, suc, ◌<◌, ◌≡◌, refl, sym, ap, ◌∙◌, ◌⊎◌, Bool, true, false, ◌&&◌, ◌||◌, List, [], ◌∷◌, ◌++◌,
  map, ◌==◌, Bool-cases, inl, inr, arith,
}
use obs_trigglow_dynamic_del.Tasks.Token.{CancelToken, unsubscribe, erase}
use obs_trigglow_dynamic_del.Tasks.{RegistryState, put_group, change_group, cancel_groups}
use obs_trigglow_dynamic_del.Tasks.Tied.{IsTied}

-- The group's own subscription, which has the number after the group's.
abbrev pub subscribed : ℕ → List (ℕ × ℕ) → Bool
subscribed g [] = false
subscribed g ((id, k) ∷ rest) = (id == suc g && k == g) || subscribed g rest

abbrev pub covers : ℕ → List ℕ → Bool
covers g [] = false
covers g (k ∷ ks) = k == g || covers g ks

pub covers-subscribed :
    (g : ℕ) (subscribers : List (ℕ × ℕ))
    → subscribed g subscribers ≡ true
    → covers g (map (λ s. s.1) subscribers) ≡ true
covers-subscribed g [] h = h
covers-subscribed g ((id, k) ∷ rest) h = elim (Bool-cases (subscribed g rest)) [
  | inl r ↦ ground (arith, covers-subscribed g rest r)
  | inr r ↦ ground (arith, h, r)
]

pub subscribed-append :
    (g : ℕ) (subscribers : List (ℕ × ℕ)) (s : ℕ × ℕ)
    → subscribed g (subscribers ++ s ∷ []) ≡ (subscribed g subscribers || subscribed g (s ∷ []))
subscribed-append g [] s = refl
subscribed-append g ((id, k) ∷ rest) s = ground (arith, subscribed-append g rest s)

subscribed-erase :
    (g h : ℕ) (subscribers : List (ℕ × ℕ))
    → (g == h) ≡ false
    → subscribed g (erase (suc h) subscribers) ≡ subscribed g subscribers
subscribed-erase g h [] e = refl
subscribed-erase g h ((id, k) ∷ rest) e = elim (Bool-cases (id == suc h)) [
  | inl i ↦ let other : (id == suc g) ≡ false = ground arith in rw (i, other) refl
  | inr i ↦ rw (i, subscribed-erase g h rest e) refl
]

pub subscribed-unsubscribe :
    (g h : ℕ) (t : CancelToken ℕ)
    → (g == h) ≡ false
    → subscribed g (unsubscribe (suc h) t).subscribers ≡ subscribed g t.subscribers
unfolding unsubscribe
subscribed-unsubscribe g h t e =
    let some_id : (suc h == 0) ≡ false = ground arith in
    rw some_id (subscribed-erase g h t.subscribers e)

pub unsubscribe_rest :
    (id : ℕ) (t : CancelToken ℕ)
    → ((unsubscribe id t).cancelled ≡ t.cancelled) × ((unsubscribe id t).next_id ≡ t.next_id)
unfolding unsubscribe
unsubscribe_rest id t = elim (Bool-cases (id == 0)) [
  | inl e ↦ rw e (refl, refl)
  | inr e ↦ rw e (refl, refl)
]

-- The groups that a cancelled token cancels.
pub cancel_groups-flag :
    (gs : List ℕ) (st : RegistryState) (g : ℕ)
    → ((st.groups g).token || covers g gs) ≡ true
    → ((cancel_groups gs st).groups g).token ≡ true
unfolding cancel_groups change_group put_group
cancel_groups-flag [] st g h = ground (arith, h)
cancel_groups-flag (k ∷ gs) st g h =
    cancel_groups-flag gs (change_group k (λ x. record x { token = true }) st) g
      (elim (Bool-cases (g == k)) [
        | inl e ↦ rw e refl
        | inr e ↦ rw e (let other : (k == g) ≡ false = ground arith in ground (arith, h, other))
      ])

pub cancel_groups_rest :
    (gs : List ℕ) (st : RegistryState)
    → ((cancel_groups gs st).token ≡ st.token) × ((cancel_groups gs st).made ≡ st.made)
unfolding cancel_groups change_group
cancel_groups_rest [] st = (refl, refl)
cancel_groups_rest (g ∷ gs) st = cancel_groups_rest gs _

-- Every group's token is cancelled, or it will be with the registry's.
pub record IsLinked (st : RegistryState) : Type 0 where
  pub numbered : st.token.cancelled ≡ false → st.token.next_id ≡ suc st.made
  pub own : st.token.cancelled ≡ false → (g : ℕ) → g < st.made → (st.groups g).subscription ≡ suc g
  pub follows :
      (g : ℕ)
      → g < st.made
      → ((st.groups g).token ≡ true)
        ⊎ ((st.token.cancelled ≡ false) × (subscribed g st.token.subscribers ≡ true))

pub IsLinked-IsTied : (st after : RegistryState) → IsTied st after → IsLinked st → IsLinked after
IsLinked-IsTied st after e l =
    let cancelled = ap (λ t. t.cancelled) e.token_same in
    record {
      numbered = λ h.
          ap (λ t. t.next_id) e.token_same
          ∙ l.numbered (sym cancelled ∙ h)
          ∙ ap suc (sym e.made_same);
      own = λ h g m. e.id_same g ∙ l.own (sym cancelled ∙ h) g (omega (arith, m, e.made_same));
      follows = λ g m. elim (l.follows g (omega (arith, m, e.made_same))) [
        | inl f ↦ inl (e.flag_same g ∙ f)
        | inr (c, s) ↦ inr (cancelled ∙ c, ap (λ t. subscribed g t.subscribers) e.token_same ∙ s)
      ];
    }
