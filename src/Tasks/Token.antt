-- ===== src/Tasks/Token.antt =====
-- src/cancel-token.hpp and .cpp: CancelToken. Its callbacks are values; a function that runs some
-- returns them. `onCancel` may be empty.
use obs_trigglow_dynamic_del.Prelude.{
  ℕ, Bool, true, false, Option, none, some, List, [], ◌∷◌, ◌++◌, ◌==◌, map, if◌then◌else◌, add_u64,
}

pub record CancelToken (A : Type 0) : Type 0 where
  pub cancelled : Bool
  pub next_id : ℕ
  pub subscribers : List (ℕ × A)

-- What Subscribe returns, the callbacks that ran, and the token.
pub record Subscribed (A : Type 0) : Type 0 where
  pub id : ℕ
  pub ran : List A
  pub after : CancelToken A

module _ {A : Type 0} where
  unfoldable pub fresh : CancelToken A
  fresh = record { cancelled = false; next_id = 1; subscribers = [] }

  -- Subscribe.
  unfoldable pub subscribe : Option A → CancelToken A → Subscribed A
  subscribe none t = record { id = 0; ran = []; after = t }
  subscribe (some on_cancel) t =
      if t.cancelled then record { id = 0; ran = on_cancel ∷ []; after = t } else record {
        id = t.next_id;
        ran = [];
        after = record t {
          next_id = add_u64 t.next_id 1;
          subscribers = t.subscribers ++ (t.next_id, on_cancel) ∷ [];
        };
      }

  abbrev pub erase : ℕ → List (ℕ × A) → List (ℕ × A)
  erase id [] = []
  erase id ((n, f) ∷ subscribers) = if n == id then subscribers else (n, f) ∷ erase id subscribers

  -- Unsubscribe.
  unfoldable pub unsubscribe : ℕ → CancelToken A → CancelToken A
  unsubscribe id t = if id == 0 then t else record t { subscribers = erase id t.subscribers }

  -- Cancel.
  unfoldable pub cancel : CancelToken A → List A × CancelToken A
  cancel t =
      if t.cancelled
      then ([], t)
      else (map (λ s. s.1) t.subscribers, record t { cancelled = true; subscribers = [] })
