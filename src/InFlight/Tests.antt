-- ===== src/InFlight/Tests.antt =====
-- Runs of the model of InFlightQueue.
use obs_trigglow_dynamic_del.Prelude.{ℕ, ◌*◌, ◌≡◌, refl, inr, [], ◌∷◌, ◌++◌, arith}
use obs_trigglow_dynamic_del.InFlight.{Entry, InFlightQueue, mismatch, contents, push, pop, clear}
use obs_trigglow_dynamic_del.InFlight.Places.{IsSound}
use obs_trigglow_dynamic_del.InFlight.Fifo.{pop_list, queue_refines_list}

abbrev entry : ℕ → Entry ℕ
entry seq = record { seq = seq; submit_ns = seq * 1000; value = seq }

abbrev blank : Entry ℕ
blank = record { seq = 0; submit_ns = 0; value = 0 }

-- A ring that goes round its end, and is full.
abbrev turned : InFlightQueue ℕ
turned = record {
  entries = entry 6 ∷ entry 7 ∷ entry 4 ∷ entry 5 ∷ [];
  head = 2;
  size = 4;
  max_depth = 4;
}

turned-IsSound : IsSound turned
turned-IsSound = record { fits = omega arith; head_in = inr (omega arith) }

turned-contents : contents blank turned ≡ entry 4 ∷ entry 5 ∷ entry 6 ∷ entry 7 ∷ []
unfolding contents
turned-contents = refl

oldest_only : (pop blank 5 turned).0 ≡ mismatch
unfolding pop
oldest_only = refl

queue_refines_list_example :
    (contents blank (push blank (entry 8) turned) ≡ contents blank turned ++ entry 8 ∷ [])
    × IsSound (push blank (entry 8) turned)
    × ((pop blank 4 turned).0 ≡ (pop_list 4 (contents blank turned)).0)
    × (contents blank (pop blank 4 turned).1 ≡ (pop_list 4 (contents blank turned)).1)
    × IsSound (pop blank 4 turned).1
    × ((clear blank turned.size turned).0 ≡ contents blank turned)
    × ((clear blank turned.size turned).1.size ≡ 0)
queue_refines_list_example = queue_refines_list blank (entry 8) 4 turned turned-IsSound
