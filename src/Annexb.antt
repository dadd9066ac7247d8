-- ===== src/Annexb.antt =====
-- src/annexb.hpp and src/annexb.cpp: the NAL units of an Annex B bitstream. A packet is the list of its
-- bytes.
pub mod Units
pub mod Complete
mod Tests
use obs_trigglow_dynamic_del.Prelude.{
  ℕ, zero, suc, ◌+◌, ◌-◌, ◌/◌, ◌%◌, Bool, true, false, not, ◌&&◌, ◌||◌, Option, none, some, List,
  [], ◌∷◌, ◌++◌, ◌==◌, ltb, leb, if◌then◌else◌, length, get_or, is_empty,
}
use obs_trigglow_dynamic_del.Select.{CodecId, raw, mjpeg, h264, hevc}

pub record Nal : Type 0 where
  pub begin : ℕ
  pub header : ℕ
  pub end : ℕ
  pub type : ℕ

-- Inter.
abbrev pub is_inter : CodecId → Bool
is_inter h264 = true
is_inter hevc = true
is_inter _ = false

-- NalType.
unfoldable pub nal_type : CodecId → ℕ → ℕ
nal_type hevc header = header / 2 % 64
nal_type _ header = header % 32

-- IsParameterSet.
unfoldable pub is_parameter_set : CodecId → ℕ → Bool
is_parameter_set hevc type = type == 32 || type == 33 || type == 34
is_parameter_set h264 type = type == 7 || type == 8
is_parameter_set _ type = false

-- IsSlice.
unfoldable pub is_slice : CodecId → ℕ → Bool
is_slice hevc type = leb type 31
is_slice h264 type = leb 1 type && leb type 5
is_slice _ type = false

abbrev pub byte_at : List ℕ → ℕ → ℕ
byte_at bytes i = get_or bytes i 0

-- The three bytes 00 00 01 at `i`.
unfoldable pub code_at : List ℕ → ℕ → Bool
code_at bytes i = byte_at bytes i == 0 && byte_at bytes (i + 1) == 0 && byte_at bytes (i + 2) == 1

-- Where a start code at `i` begins: a zero byte before it belongs to it.
unfoldable pub begin_at : List ℕ → ℕ → ℕ
begin_at bytes i = if ltb 0 i && byte_at bytes (i - 1) == 0 then i - 1 else i

-- The last unit, which is open until the next start code, with another end.
abbrev pub end_with : ℕ → Option Nal → List Nal
end_with end none = []
end_with end (some nal) = record nal { end = end } ∷ []

abbrev pub as_list : Option Nal → List Nal
as_list none = []
as_list (some nal) = nal ∷ []

abbrev pub nal_at : CodecId → List ℕ → ℕ → Nal
nal_at codec bytes i = record {
  begin = begin_at bytes i;
  header = i + 3;
  end = length bytes;
  type = nal_type codec (byte_at bytes (i + 3));
}

-- The loop of Split, on fuel for each byte, with the unit that is open.
unfoldable pub scan : CodecId → List ℕ → ℕ → ℕ → Option Nal → List Nal
unfolding code_at begin_at nal_type
scan codec bytes zero i open_nal = as_list open_nal
scan codec bytes (suc fuel) i open_nal =
    let found = code_at bytes i in
    let rest =
      scan codec bytes fuel (if found then i + 3 else i + 1)
        (if found then some (nal_at codec bytes i) else open_nal) in
    if not (ltb (i + 2) (length bytes))
    then as_list open_nal
    else if not found
    then rest
    else if leb (length bytes) (i + 3)
    then end_with (begin_at bytes i) open_nal
    else end_with (begin_at bytes i) open_nal ++ rest

-- Split; none is a null pointer.
unfoldable pub split : CodecId → Option (List ℕ) → List Nal
unfolding scan
split codec none = []
split codec (some bytes) =
    if ltb (length bytes) 4 then [] else scan codec bytes (length bytes) 0 none

-- The sets found so far in HasInBandParameterSets.
pub record Found : Type 0 where
  pub vps : Bool
  pub sps : Bool
  pub pps : Bool

unfoldable pub note_set : CodecId → ℕ → Found → Found
note_set hevc type f = record {
  vps = f.vps || type == 32;
  sps = f.sps || type == 33;
  pps = f.pps || type == 34;
}
note_set _ type f = record f { sps = f.sps || type == 7; pps = f.pps || type == 8 }

unfoldable pub find_sets : CodecId → List Nal → Found → Found
unfolding is_slice note_set
find_sets codec [] f = f
find_sets codec (nal ∷ nals) f =
    if is_slice codec nal.type then f else find_sets codec nals (note_set codec nal.type f)

abbrev pub is_hevc : CodecId → Bool
is_hevc hevc = true
is_hevc _ = false

-- HasInBandParameterSets.
unfoldable pub has_in_band : CodecId → Option (List ℕ) → Bool
unfolding split find_sets
has_in_band codec bytes =
    let f =
      find_sets codec (split codec bytes)
        (record { vps = not (is_hevc codec); sps = false; pps = false }) in
    is_inter codec && (f.vps && f.sps && f.pps)

abbrev pub drop : ℕ → List ℕ → List ℕ
drop zero xs = xs
drop (suc n) [] = []
drop (suc n) (x ∷ xs) = drop n xs

abbrev pub take : ℕ → List ℕ → List ℕ
take zero xs = []
take (suc n) [] = []
take (suc n) (x ∷ xs) = x ∷ take n xs

-- The loop of ExtractParameterSets.
unfoldable pub copy_sets : CodecId → List ℕ → List Nal → List ℕ
unfolding is_slice is_parameter_set
copy_sets codec bytes [] = []
copy_sets codec bytes (nal ∷ nals) =
    let rest = copy_sets codec bytes nals in
    let unit = take (nal.end - nal.header) (drop nal.header bytes) in
    if is_slice codec nal.type
    then []
    else if not (is_parameter_set codec nal.type)
    then rest
    else 0 ∷ 0 ∷ 0 ∷ 1 ∷ (unit ++ rest)

-- ExtractParameterSets.
unfoldable pub extract_sets : CodecId → Option (List ℕ) → List ℕ
unfolding has_in_band copy_sets
extract_sets codec none = []
extract_sets codec (some bytes) =
    if not (has_in_band codec (some bytes))
    then []
    else copy_sets codec bytes (split codec (some bytes))

-- PrependParameterSets: the packet with the sets before it, or none where it returns false.
unfoldable pub prepend_sets : CodecId → List ℕ → Option (List ℕ) → Option (List ℕ)
unfolding has_in_band
prepend_sets codec sets none = none
prepend_sets codec sets (some bytes) =
    if is_empty sets || is_empty bytes || has_in_band codec (some bytes)
    then none
    else some (sets ++ bytes)
