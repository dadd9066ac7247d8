-- ===== src/BufferMode/Texts.antt =====
-- The texts of src/buffer-mode-controller.cpp: its templates, the names in src/auto-names.cpp, and the
-- families by encoder id of src/storage-codec-select.cpp. A string is the list of its bytes.
use Prim.Native.Char.{code}
use Prim.Native.String.{String}
use obs_trigglow_dynamic_del.Prelude.{
  ℕ, zero, suc, ◌+◌, ◌-◌, ◌/◌, ◌%◌, Bool, true, false, not, ◌&&◌, ◌||◌, List, [], ◌∷◌, ◌++◌, ltb,
  leb, ◌==◌, if◌then◌else◌, length, get_or, is_empty,
}

abbrev pub Text : Type 0
Text = List ℕ

abbrev pub codes : String → Text
codes String.[] = []
codes (String.◌∷◌ c s) = code c ∷ codes s

abbrev pub same_text : Text → Text → Bool
same_text [] [] = true
same_text (a ∷ s) (b ∷ t) = (a == b) && same_text s t
same_text _ _ = false

abbrev pub mem_text : Text → List Text → Bool
mem_text name [] = false
mem_text name (x ∷ names) = same_text name x || mem_text name names

-- std::string's operator<.
unfoldable pub text_ltb : Text → Text → Bool
text_ltb s [] = false
text_ltb [] (b ∷ t) = true
text_ltb (a ∷ s) (b ∷ t) = ltb a b || (a == b && text_ltb s t)

unfoldable pub insert_text : Text → List Text → List Text
unfolding text_ltb
insert_text s [] = s ∷ []
insert_text s (t ∷ ts) =
    let later = t ∷ insert_text s ts in if text_ltb t s then later else s ∷ t ∷ ts

-- std::sort of strings: equal strings cannot be told apart, so every way to sort gives this list.
unfoldable pub sort_texts : List Text → List Text
unfolding insert_text
sort_texts [] = []
sort_texts (t ∷ ts) = insert_text t (sort_texts ts)

abbrev pub same_texts : List Text → List Text → Bool
same_texts [] [] = true
same_texts (s ∷ ss) (t ∷ ts) = same_text s t && same_texts ss ts
same_texts _ _ = false

unfoldable pub digits : ℕ → ℕ → Text → Text
digits zero n acc = acc
digits (suc fuel) n acc =
    let longer = (48 + n % 10) ∷ acc in if ltb n 10 then longer else digits fuel (n / 10) longer

-- std::to_string of a `uint32_t`, which has at most ten digits.
unfoldable pub to_text : ℕ → Text
unfolding digits
to_text n = digits 10 n []

-- Whether the two bytes after a template's position stand for one of `count` values.
abbrev pub is_argument : ℕ → ℕ → ℕ → Bool
is_argument c d count = c == b'%' && (leb b'1' d && leb d b'9') && ltb (d - b'1') count

-- FormatArgs.
unfoldable pub format_args : Text → List Text → Text
format_args [] values = []
format_args (c ∷ []) values = c ∷ []
format_args (c ∷ d ∷ rest) values = elim (is_argument c d (length values)) [
  | true ↦ get_or values (d - b'1') [] ++ format_args rest values
  | false ↦ c ∷ format_args (d ∷ rest) values
]

-- kWrapperScene, and kLegacyWrapperScenes.
abbrev pub wrapper_scene : Text
wrapper_scene = codes "Trigglow Delay Buffer (auto)"

abbrev pub legacy_wrapper_scene : Text
legacy_wrapper_scene = codes "Trigglow Delay Buffer (no tocar)"

-- IsWrapperSceneName.
unfoldable pub is_wrapper_scene_name : Text → Bool
is_wrapper_scene_name name = same_text name wrapper_scene || same_text name legacy_wrapper_scene

-- std::tolower in the C locale.
abbrev pub to_lower : ℕ → ℕ
to_lower c = if leb b'A' c && leb c b'Z' then c + 32 else c

abbrev pub starts_lower : Text → Text → Bool
starts_lower s [] = true
starts_lower [] (n ∷ needle) = false
starts_lower (c ∷ s) (n ∷ needle) = (to_lower c == to_lower n) && starts_lower s needle

unfoldable pub find_lower : Text → Text → Bool
find_lower [] needle = false
find_lower (c ∷ s) needle = starts_lower (c ∷ s) needle || find_lower s needle

-- ContainsI.
unfoldable pub contains_i : Text → Text → Bool
unfolding find_lower
contains_i haystack needle = not (is_empty needle) && find_lower haystack needle

pub data EncoderFamily : Type 0 where
  no_family nvenc amf qsv cpu other_family : EncoderFamily

-- FamilyFromObsEncoderId.
unfoldable pub family_from_id : Text → EncoderFamily
unfolding contains_i
family_from_id id =
    if is_empty id
    then no_family
    else if contains_i id (codes "nvenc")
    then nvenc
    else if contains_i id (codes "amf")
    then amf
    else if contains_i id (codes "qsv")
    then qsv
    else if contains_i id (codes "x264")
        || contains_i id (codes "x265")
        || contains_i id (codes "svt_av1")
        || contains_i id (codes "aom_av1")
        || contains_i id (codes "openh264")
    then cpu
    else other_family

abbrev pub is_nvenc : EncoderFamily → Bool
is_nvenc nvenc = true
is_nvenc _ = false
