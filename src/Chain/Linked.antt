-- ===== src/Chain/Linked.antt =====
-- The invariant of src/storage-codec.hpp's ChainTracker: stored packets and their references.
use obs_trigglow_dynamic_del.Prelude.{
  ℕ, ◌≡◌, ◌⊎◌, refl, Bool, true, false, not, ◌&&◌, ◌||◌, ◌+◌, if◌then◌else◌, List, [], ◌∷◌, arith,
}
use obs_trigglow_dynamic_del.Chain.{
  Tracker, start, Packet, receive, Event, sends, fails, receives, Fate, Session, step, run,
}

abbrev pub head_stored : List Fate → Bool
head_stored [] = false
head_stored (x ∷ xs) = x.stored

-- Every stored packet that is no key comes right after a stored packet.
abbrev pub linked : List Fate → Bool
linked [] = true
linked (x ∷ xs) = (not x.stored || x.key || head_stored xs) && linked xs

-- The fates are linked, and a chain whose newest packet was not stored is broken.
pub record IsLinked (s : Session) : Type 0 where
  pub all_linked : linked s.1 ≡ true
  pub breaks : (head_stored s.1 ≡ true) ⊎ (s.0.broken ≡ true)

step-IsLinked :
    (t : Tracker) (fates : List Fate) (e : Event)
    → IsLinked (t, fates)
    → IsLinked (step (t, fates) e)
unfolding step
step-IsLinked t fates (sends forced_key) v = ground (arith, v)
step-IsLinked t fates fails v = ground (arith, v)
step-IsLinked t fates (receives packet) v = ground (arith, v)

run-IsLinked : (s : Session) (es : List Event) → IsLinked s → IsLinked (run s es)
unfolding run
run-IsLinked s [] v = v
run-IsLinked s (e ∷ es) v = run-IsLinked (step s e) es (step-IsLinked s.0 s.1 e v)

first-IsLinked :
    (t : Tracker) (chain : ℕ) (packet : Packet)
    → packet.key ≡ true
    → IsLinked (step (start t chain, []) (receives packet))
unfolding step start
first-IsLinked t chain packet k = ground arith

-- In a chain whose first packet is a key, whatever is sent, lost, refused or dropped afterwards,
-- every stored packet that is no key follows a stored packet directly: the decoder never meets a
-- packet whose reference is missing. A chain whose newest packet was not stored is broken.
pub references_are_stored :
    (t : Tracker) (chain : ℕ) (packet : Packet) (es : List Event)
    → packet.key ≡ true
    → IsLinked (run (start t chain, []) (receives packet ∷ es))
unfolding run
references_are_stored t chain packet es k =
    run-IsLinked (step (start t chain, []) (receives packet)) es (first-IsLinked t chain packet k)

-- How many of the packets the pipeline stores.
pub stored_count : Tracker → List Packet → ℕ
stored_count t [] = 0
stored_count t (x ∷ xs) = (if (receive t x).0 then 1 else 0) + stored_count (receive t x).1 xs

abbrev pub no_keys : List Packet → Bool
no_keys [] = true
no_keys (x ∷ xs) = not x.key && no_keys xs

broken_stays :
    (t : Tracker) (packet : Packet)
    → t.broken ≡ true
    → packet.key ≡ false
    → ((receive t packet).0 ≡ false) × ((receive t packet).1.broken ≡ true)
unfolding receive
broken_stays t packet b k = (ground arith, ground arith)

broken_stores_none :
    (t : Tracker) (packets : List Packet)
    → t.broken ≡ true
    → no_keys packets ≡ true
    → stored_count t packets ≡ 0
unfolding stored_count
broken_stores_none t [] b n = refl
broken_stores_none t (x ∷ xs) b n =
    let (miss, still) = broken_stays t x b (ground arith) in
    ground (arith, miss, broken_stores_none (receive t x).1 xs still (ground arith))

refusal_breaks :
    (t : Tracker) (packet : Packet)
    → (receive t packet).0 ≡ false
    → (receive t packet).1.broken ≡ true
unfolding receive
refusal_breaks t packet e = ground arith

-- Once a packet is not stored, none of the packets after it is stored up to the next key.
pub loss_waits_for_key :
    (t : Tracker) (packet : Packet) (packets : List Packet)
    → (receive t packet).0 ≡ false
    → no_keys packets ≡ true
    → stored_count (receive t packet).1 packets ≡ 0
loss_waits_for_key t packet packets e n =
    broken_stores_none (receive t packet).1 packets (refusal_breaks t packet e) n
