-- ===== src/Annexb/Tests.antt =====
-- Runs of the model of src/annexb.cpp.
use obs_trigglow_dynamic_del.Prelude.{ℕ, arith, ◌≡◌, refl, true, some, List, [], ◌∷◌}
use obs_trigglow_dynamic_del.Select.{h264}
use obs_trigglow_dynamic_del.Annexb.{split, extract_sets, code_at}
use obs_trigglow_dynamic_del.Annexb.Units.{IsSplit}
use obs_trigglow_dynamic_del.Annexb.Complete.{has_header_at, split-IsSplit}

-- A stray byte, an SPS, a PPS behind a start code of four bytes, and a slice.
abbrev packet : List ℕ
packet = 9 ∷ 0 ∷ 0 ∷ 1 ∷ 0x67 ∷ 42 ∷ 0 ∷ 0 ∷ 0 ∷ 1 ∷ 0x68 ∷ 0 ∷ 0 ∷ 1 ∷ 0x65 ∷ 7 ∷ []

packet_units :
    split h264 (some packet)
    ≡ record { begin = 1; header = 4; end = 6; type = 7 }
      ∷ record { begin = 6; header = 10; end = 11; type = 8 }
      ∷ record { begin = 11; header = 14; end = 16; type = 5 }
      ∷ []
unfolding split
packet_units = refl

split-IsSplit_example :
    IsSplit h264 packet (split h264 (some packet))
    × (has_header_at 14 (split h264 (some packet)) ≡ true)
unfolding code_at
split-IsSplit_example = split-IsSplit h264 packet 11 refl (omega arith)

packet_sets :
    extract_sets h264 (some packet) ≡ 0 ∷ 0 ∷ 0 ∷ 1 ∷ 0x67 ∷ 42 ∷ 0 ∷ 0 ∷ 0 ∷ 1 ∷ 0x68 ∷ []
unfolding extract_sets
packet_sets = refl
