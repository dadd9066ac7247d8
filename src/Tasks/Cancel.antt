-- ===== src/Tasks/Cancel.antt =====
-- The operations of src/background-tasks.cpp on tokens, and the link between them.
use obs_trigglow_dynamic_del.Prelude.{
  ℕ, suc, ◌≤◌, ◌<◌, ◌≡◌, refl, sym, ap, subst, ◌∙◌, true, false, ◌||◌, some, [], ◌∷◌, ◌++◌, map,
  ◌==◌, if_true, if_false, Bool-cases, inl, inr, ==_iff, add_u64, u64_mod, arith,
}
use obs_trigglow_dynamic_del.Tasks.Token.{CancelToken, subscribe, unsubscribe, cancel}
use obs_trigglow_dynamic_del.Tasks.{
  RegistryState, put_group, change_group, fresh_group, cancel_groups, cancel_token, take_cancelled,
}
use obs_trigglow_dynamic_del.Tasks.Ops.{add_group, add_group, cancel_group_token, drop_group}
use obs_trigglow_dynamic_del.Tasks.Tied
use obs_trigglow_dynamic_del.Tasks.Tied.{IsTied}
use obs_trigglow_dynamic_del.Tasks.Linked.{
  subscribed, covers, covers-subscribed, subscribed-append, subscribed-unsubscribe,
  unsubscribe_rest, cancel_groups-flag, cancel_groups_rest, IsLinked, IsLinked-IsTied,
}

-- What a step keeps: the link, a cancelled token, and at most one group more.
pub record IsKept (st after : RegistryState) : Type 0 where
  pub linked : IsLinked after
  pub stays : st.token.cancelled ≡ true → after.token.cancelled ≡ true
  pub grows : after.made ≤ suc st.made

pub IsKept-IsTied : (st after : RegistryState) → IsTied st after → IsLinked st → IsKept st after
IsKept-IsTied st after e l = record {
  linked = IsLinked-IsTied st after e l;
  stays = λ h. ap (λ t. t.cancelled) e.token_same ∙ h;
  grows = omega (arith, e.made_same);
}

pub IsKept-cancel_group_token :
    (g : ℕ) (st : RegistryState) → IsLinked st → IsKept st (cancel_group_token g st)
unfolding cancel_group_token change_group put_group
IsKept-cancel_group_token g st l = record {
  linked = record {
    numbered = l.numbered;
    own = λ h k m. elim (Bool-cases (k == g)) [
      | inl e ↦ rw e (ap (λ n. (st.groups n).subscription) (sym ((==_iff k g).0 e)) ∙ l.own h k m)
      | inr e ↦ rw e (l.own h k m)
    ];
    follows = λ k m. elim (Bool-cases (k == g)) [
      | inl e ↦ inl (rw e refl)
      | inr e ↦ rw e (l.follows k m)
    ];
  };
  stays = λ h. h;
  grows = omega arith;
}

-- The destructor takes off the subscription of its own group only.
IsLinked-drop_group :
    (g : ℕ) (st : RegistryState)
    → g < st.made
    → IsLinked st
    → (st.groups g).token ≡ true
    → IsLinked (record st { token = unsubscribe (st.groups g).subscription st.token })
IsLinked-drop_group g st m l f =
    let (cancelled, number) = unsubscribe_rest (st.groups g).subscription st.token in
    record {
      numbered = λ h. number ∙ l.numbered (sym cancelled ∙ h);
      own = λ h k n. l.own (sym cancelled ∙ h) k n;
      follows = λ k n. elim (l.follows k n) [
        | inl flag ↦ inl flag
        | inr (c, s) ↦ elim (Bool-cases (k == g)) [
          | inl e ↦ inl (ap (λ n. (st.groups n).token) ((==_iff k g).0 e) ∙ f)
          | inr e ↦ inr (
            cancelled ∙ c,
            ap (λ id. subscribed k (unsubscribe id st.token).subscribers) (l.own c g m)
                ∙ subscribed-unsubscribe k g st.token e
                ∙ s,
          )
        ]
      ];
    }

pub IsKept-drop_group :
    (g : ℕ) (st : RegistryState) → g < st.made → IsLinked st → IsKept st (drop_group g st)
unfolding drop_group
IsKept-drop_group g st m l = elim (Bool-cases (st.groups g).token) [
  | inl f ↦ rw f (record {
    linked = IsLinked-drop_group g st m l f;
    stays = λ h. (unsubscribe_rest (st.groups g).subscription st.token).0 ∙ h;
    grows = omega arith;
  })
  | inr f ↦ rw f (IsKept-IsTied st st (Tied.IsTied-refl st) l)
]

-- The registry's token is cancelled, and so is every group's.
abbrev pub AllCancelled : RegistryState → Type 0
AllCancelled st = (st.token.cancelled ≡ true) × ((g : ℕ) → g < st.made → (st.groups g).token ≡ true)

pub IsLinked-AllCancelled : (st : RegistryState) → AllCancelled st → IsLinked st
IsLinked-AllCancelled st (c, flags) = record {
  numbered = λ h. absurd (ground (arith, c, h));
  own = λ h. absurd (ground (arith, c, h));
  follows = λ g m. inl (flags g m);
}

pub AllCancelled-IsLinked :
    (st : RegistryState) → st.token.cancelled ≡ true → IsLinked st → AllCancelled st
AllCancelled-IsLinked st c l =
    (c, λ g m. elim (l.follows g m) [ inl f ↦ f | inr (o, s) ↦ absurd (ground (arith, c, o)) ])

cancel_again : (t : CancelToken ℕ) → t.cancelled ≡ true → cancel t ≡ ([], t)
unfolding cancel
cancel_again t h = if_true t.cancelled ([], t) _ h

cancel_first :
    (t : CancelToken ℕ)
    → t.cancelled ≡ false
    → cancel t ≡ (map (λ s. s.1) t.subscribers, record t { cancelled = true; subscribers = [] })
unfolding cancel
cancel_first t h = if_false t.cancelled ([], t) _ h

AllCancelled-taken :
    (st : RegistryState)
    → IsLinked st
    → AllCancelled (
        take_cancelled
          (
            map (λ s. s.1) st.token.subscribers,
            record st.token { cancelled = true; subscribers = [] },
          )
          st)
unfolding take_cancelled
AllCancelled-taken st l =
    let ids = map (λ s. s.1) st.token.subscribers in
    let cancelled = record st.token { cancelled = true; subscribers = [] } in
    let (token, made) = cancel_groups_rest ids (record st { token = cancelled }) in
    (
      ap (λ t. t.cancelled) token,
      λ g m.
          cancel_groups-flag ids (record st { token = cancelled }) g
            (elim (l.follows g (omega (arith, m, made))) [
              | inl f ↦ ap (λ b. b || covers g ids) f
              | inr (c, s) ↦ ground (arith, covers-subscribed g st.token.subscribers s)
            ]),
    )

pub AllCancelled-cancel_token : (st : RegistryState) → IsLinked st → AllCancelled (cancel_token st)
unfolding cancel_token take_cancelled
AllCancelled-cancel_token st l = elim (Bool-cases st.token.cancelled) [
  | inl c ↦
      subst (λ p. AllCancelled (take_cancelled p st)) (sym (cancel_again st.token c))
        (AllCancelled-IsLinked st c l)
  | inr o ↦
      subst (λ p. AllCancelled (take_cancelled p st)) (sym (cancel_first st.token o))
        (AllCancelled-taken st l)
]

pub subscribe_late :
    (a : ℕ) (t : CancelToken ℕ)
    → t.cancelled ≡ true
    → subscribe (some a) t ≡ record { id = 0; ran = a ∷ []; after = t }
unfolding subscribe
subscribe_late a t h = if_true t.cancelled (record { id = 0; ran = a ∷ []; after = t }) _ h

pub subscribe_live :
    (a : ℕ) (t : CancelToken ℕ)
    → t.cancelled ≡ false
    → subscribe (some a) t ≡ record {
      id = t.next_id;
      ran = [];
      after = record t {
        next_id = add_u64 t.next_id 1;
        subscribers = t.subscribers ++ (t.next_id, a) ∷ [];
      };
    }
unfolding subscribe
subscribe_live a t h = if_false t.cancelled (record { id = 0; ran = a ∷ []; after = t }) _ h

lower : (g n : ℕ) → (g == n) ≡ false → g < suc n → g < n
lower g n e h = ground arith

-- A group of a registry that is cancelled already.
pub AllCancelled-add_group :
    (st : RegistryState)
    → AllCancelled st
    → AllCancelled (add_group (record { id = 0; ran = st.made ∷ []; after = st.token }) st)
unfolding add_group put_group
AllCancelled-add_group st (c, flags) =
    let groups = put_group st.groups st.made fresh_group in
    let added = record st { groups = groups; made = suc st.made } in
    let (token, made) = cancel_groups_rest (st.made ∷ []) added in
    (
      ap (λ t. t.cancelled) token ∙ c,
      λ g m. cancel_groups-flag (st.made ∷ []) added g (elim (Bool-cases (g == st.made)) [
        | inl e ↦ let same : (st.made == g) ≡ true = ground arith in rw (e, same) refl
        | inr e ↦
            let before = flags g (lower g st.made e (omega (arith, m, made))) in rw (e, before) refl
      ]),
    )

pub IsLinked-add_group :
    (st : RegistryState)
    → suc (suc st.made) < u64_mod
    → st.token.cancelled ≡ false
    → IsLinked st
    → IsLinked (
        add_group
          (record {
            id = st.token.next_id;
            ran = [];
            after = record st.token {
              next_id = add_u64 st.token.next_id 1;
              subscribers = st.token.subscribers ++ (st.token.next_id, st.made) ∷ [];
            };
          })
          st)
unfolding add_group put_group cancel_groups
IsLinked-add_group st b o l = record {
  numbered = λ h. omega (arith, b, l.numbered o);
  own = λ h k m. elim (Bool-cases (k == st.made)) [
    | inl e ↦ rw e (l.numbered o ∙ ap suc (sym ((==_iff k st.made).0 e)))
    | inr e ↦ rw e (l.own o k (ground arith))
  ];
  follows = λ k m. elim (Bool-cases (k == st.made)) [
    | inl e ↦ inr (
      o,
      subscribed-append k st.token.subscribers (st.token.next_id, st.made)
          ∙ ground (arith, l.numbered o, e),
    )
    | inr e ↦ rw e (elim (l.follows k (ground arith)) [
      | inl f ↦ inl f
      | inr (c, s) ↦ inr (
        c,
        subscribed-append k st.token.subscribers (st.token.next_id, st.made) ∙ ground (arith, s),
      )
    ])
  ];
}
