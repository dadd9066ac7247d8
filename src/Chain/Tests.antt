-- ===== src/Chain/Tests.antt =====
-- A chain of src/storage-codec.hpp in which one packet finds no room.
use obs_trigglow_dynamic_del.Prelude.{◌≡◌, refl, true, false, [], ◌∷◌}
use obs_trigglow_dynamic_del.Chain.{new_tracker, start, Packet, receive, sends, receives, run}
use obs_trigglow_dynamic_del.Chain.Linked.{IsLinked, references_are_stored}

abbrev key_packet : Packet
key_packet = record { key = true; usable = true; has_room = true; publishes = true }

abbrev next_packet : Packet
next_packet = record key_packet { key = false }

abbrev no_room : Packet
no_room = record next_packet { has_room = false }

abbrev unusable : Packet
unusable = record next_packet { usable = false }

IsLinked-after_no_room : IsLinked (
    run
      (start new_tracker 1, [])
      (receives key_packet
        ∷ receives no_room
        ∷ receives next_packet
        ∷ sends true
        ∷ receives key_packet
        ∷ []))
IsLinked-after_no_room =
    references_are_stored new_tracker 1 key_packet
      (receives no_room ∷ receives next_packet ∷ sends true ∷ receives key_packet ∷ []) refl

unusable_refused : (receive new_tracker unusable).0 ≡ false
unfolding receive
unusable_refused = refl
