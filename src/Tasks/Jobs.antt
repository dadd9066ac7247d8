-- ===== src/Tasks/Jobs.antt =====
-- The counters of src/background-tasks.cpp when a job starts or ends.
use obs_trigglow_dynamic_del.Prelude.{
  ℕ, zero, suc, ◌%◌, ◌≤◌, ◌<◌, ◌≡◌, refl, sym, ap, ◌∙◌, Bool, true, false, Option, none, some, List,
  [], ◌∷◌, ◌==◌, length, if◌then◌else◌, Bool-cases, inl, inr, ==_iff, add_u64, sub_u64, u64_mod,
  arith,
}
use obs_trigglow_dynamic_del.Tasks.{
  RegistryState, put_group, change_group, count_in, count_out, add_job, drop_job, job_at, remove_at,
}
use obs_trigglow_dynamic_del.Tasks.Ops.{is_owner}
use obs_trigglow_dynamic_del.Tasks.Even.{owned, IsCounted, IsEven, add_mod, sub_mod}

-- The group of a new job is one that has been constructed.
abbrev pub IsMade : Option ℕ → RegistryState → Type 0
IsMade none st = st ≡ st
IsMade (some g) st = g < st.made

changed_running :
    (g k : ℕ) (op : ℕ → ℕ) (st : RegistryState)
    → ((change_group k (λ x. record x { running = op x.running }) st).groups g).running
      ≡ (if g == k then op (st.groups g).running else (st.groups g).running)
unfolding change_group put_group
changed_running g k op st = elim (Bool-cases (g == k)) [
  | inl e ↦ rw e (ap (λ n. op (st.groups n).running) (sym ((==_iff g k).0 e)))
  | inr e ↦ rw e refl
]

-- The counter of a group after a job of `owner` is counted in or out.
counted_in :
    (g : ℕ) (owner : Option ℕ) (st : RegistryState)
    → ((count_in owner st).groups g).running
      ≡ (if is_owner g owner then add_u64 (st.groups g).running 1 else (st.groups g).running)
unfolding count_in
counted_in g none st = refl
counted_in g (some k) st = changed_running g k (λ n. add_u64 n 1) _

counted_out :
    (g : ℕ) (owner : Option ℕ) (st : RegistryState)
    → ((count_out owner st).groups g).running
      ≡ (if is_owner g owner then sub_u64 (st.groups g).running 1 else (st.groups g).running)
unfolding count_out
counted_out g none st = refl
counted_out g (some k) st = changed_running g k (λ n. sub_u64 n 1) _

in_parts :
    (owner : Option ℕ) (st : RegistryState)
    → ((count_in owner st).running ≡ add_u64 st.running 1)
      × ((count_in owner st).jobs ≡ st.jobs)
      × ((count_in owner st).made ≡ st.made)
unfolding count_in change_group
in_parts none st = (refl, refl, refl)
in_parts (some k) st = (refl, refl, refl)

out_parts :
    (owner : Option ℕ) (st : RegistryState)
    → ((count_out owner st).running ≡ sub_u64 st.running 1)
      × ((count_out owner st).jobs ≡ st.jobs)
      × ((count_out owner st).made ≡ st.made)
unfolding count_out change_group
out_parts none st = (refl, refl, refl)
out_parts (some k) st = (refl, refl, refl)

if_add :
    (b : Bool) (n m : ℕ)
    → n ≡ m % u64_mod
    → (if b then add_u64 n 1 else n) ≡ (if b then suc m else m) % u64_mod
if_add true n m h = add_mod n m h
if_add false n m h = h

if_sub :
    (b : Bool) (n m : ℕ)
    → n ≡ (if b then suc m else m) % u64_mod
    → (if b then sub_u64 n 1 else n) ≡ m % u64_mod
if_sub true n m h = sub_mod n m h
if_sub false n m h = h

not_owner :
    (g : ℕ) (owner : Option ℕ) (st : RegistryState)
    → IsMade owner st
    → st.made ≤ g
    → is_owner g owner ≡ false
not_owner g none st m h = refl
not_owner g (some k) st m h = ground arith

pub IsCounted-add_job :
    (owner : Option ℕ) (st : RegistryState)
    → IsMade owner st
    → IsCounted st
    → IsCounted (add_job owner (count_in owner st))
unfolding add_job
IsCounted-add_job owner st m c =
    let (running, jobs, made) = in_parts owner st in
    record {
      all =
          running
          ∙ add_mod st.running (length st.jobs) c.all
          ∙ ap (λ jobs. suc (length jobs) % u64_mod) (sym jobs);
      each = λ g.
          counted_in g owner st
          ∙ if_add (is_owner g owner) (st.groups g).running (owned g st.jobs) (c.each g)
          ∙ ap (λ jobs. owned g (owner ∷ jobs) % u64_mod) (sym jobs);
      unmade = λ g h.
          let before : st.made ≤ g = omega (arith, h, made) in
          let other = not_owner g owner st m before in
          rw other (ap (owned g) jobs ∙ c.unmade g before);
    }

if_both :
    (b : Bool) (n m : ℕ)
    → n ≡ m % u64_mod
    → (if b then sub_u64 (if b then add_u64 n 1 else n) 1 else if b then add_u64 n 1 else n) ≡ n
if_both true n m h = omega arith
if_both false n m h = refl

pub IsEven-failed_start :
    (owner : Option ℕ) (st : RegistryState)
    → IsCounted st
    → IsEven st (count_out owner (count_in owner st))
IsEven-failed_start owner st c =
    let (running, jobs, made) = in_parts owner st in
    let (running_out, jobs_out, made_out) = out_parts owner (count_in owner st) in
    record {
      all_same = omega (arith, running, running_out, c.all);
      each_same = λ g.
          counted_out g owner (count_in owner st)
          ∙ ap (λ n. if is_owner g owner then sub_u64 n 1 else n) (counted_in g owner st)
          ∙ if_both (is_owner g owner) (st.groups g).running (owned g st.jobs) (c.each g);
      jobs_same = jobs_out ∙ jobs;
      made_same = made_out ∙ made;
    }

owned-remove_at :
    (g k : ℕ) (jobs : List (Option ℕ)) (owner : Option ℕ)
    → job_at k jobs ≡ some owner
    → owned g jobs ≡ owned g (owner ∷ remove_at k jobs)
owned-remove_at g k [] owner h = absurd (ground arith)
owned-remove_at g zero (job ∷ jobs) owner h =
    ap (λ o. owned g (elim o as (λ o. Option ℕ) [ none ↦ job | some x ↦ x ] ∷ jobs)) h
owned-remove_at g (suc k) (job ∷ jobs) owner h =
    let rest = owned-remove_at g k jobs owner h in ground (arith, rest)

length-remove_at :
    (k : ℕ) (jobs : List (Option ℕ)) (owner : Option ℕ)
    → job_at k jobs ≡ some owner
    → length jobs ≡ suc (length (remove_at k jobs))
length-remove_at k [] owner h = absurd (ground arith)
length-remove_at zero (job ∷ jobs) owner h = refl
length-remove_at (suc k) (job ∷ jobs) owner h = ap suc (length-remove_at k jobs owner h)

pub IsCounted-drop_job :
    (k : ℕ) (owner : Option ℕ) (st : RegistryState)
    → job_at k st.jobs ≡ some owner
    → IsCounted st
    → IsCounted (drop_job k (count_out owner st))
unfolding drop_job
IsCounted-drop_job k owner st h c =
    let (running, jobs, made) = out_parts owner st in
    let left = ap (remove_at k) (sym jobs) in
    record {
      all =
          running
          ∙ sub_mod st.running (length (remove_at k st.jobs))
              (c.all ∙ ap (λ n. n % u64_mod) (length-remove_at k st.jobs owner h))
          ∙ ap (λ jobs. length jobs % u64_mod) left;
      each = λ g.
          counted_out g owner st
          ∙ if_sub (is_owner g owner) (st.groups g).running (owned g (remove_at k st.jobs))
              (c.each g ∙ ap (λ n. n % u64_mod) (owned-remove_at g k st.jobs owner h))
          ∙ ap (λ jobs. owned g jobs % u64_mod) left;
      unmade = λ g l.
          let before : st.made ≤ g = omega (arith, l, made) in
          let zero_now = sym (owned-remove_at g k st.jobs owner h) ∙ c.unmade g before in
          ap (owned g) (sym left) ∙ ground (arith, zero_now);
    }
