-- ===== src/CodecSelect.antt =====
-- src/storage-codec-select.hpp and src/storage-codec-select.cpp: the hidden buffer_codec setting, which
-- hardware encoders are worth probing and in which order, and whether the buffer shares an engine with
-- OBS. A string is the list of its bytes.
pub mod Members
pub mod Rank
pub mod Order
mod Tests
use obs_trigglow_dynamic_del.Prelude.{
  ℕ, ◌+◌, Bool, true, false, not, ◌&&◌, ◌||◌, List, [], ◌∷◌, ◌++◌, ltb, leb, ◌==◌, if◌then◌else◌,
}
use obs_trigglow_dynamic_del.Select.{CodecId, h264, hevc}
use obs_trigglow_dynamic_del.BufferMode.Texts.{
  Text, codes, same_text, mem_text, EncoderFamily, no_family, nvenc, amf, qsv, cpu, other_family,
}

pub data GpuVendor : Type 0 where
  unknown nvidia amd intel other_vendor : GpuVendor

-- storage::Backend.
pub data Backend : Type 0 where
  backend_cpu backend_nvenc backend_amf backend_qsv backend_d3d12va : Backend

pub data BufferCodecMode : Type 0 where
  auto_mode mjpeg_mode : BufferCodecMode

pub data SettingType : Type 0 where
  missing string other_type : SettingType

pub record BufferCodecSetting : Type 0 where
  pub mode : BufferCodecMode
  pub warn : Bool

-- VendorFromPciId.
unfoldable pub vendor_from_pci_id : ℕ → GpuVendor
vendor_from_pci_id id =
    if id == 0
    then unknown
    else if id == 4318
    then nvidia
    else if id == 4098 || id == 4130
    then amd
    else if id == 32902
    then intel
    else other_vendor

-- FamilyOf.
abbrev pub family_of : Backend → EncoderFamily
family_of backend_nvenc = nvenc
family_of backend_amf = amf
family_of backend_qsv = qsv
family_of backend_cpu = cpu
family_of backend_d3d12va = other_family

-- VendorOf.
abbrev pub vendor_of : Backend → GpuVendor
vendor_of backend_nvenc = nvidia
vendor_of backend_amf = amd
vendor_of backend_qsv = intel
vendor_of _ = unknown

-- ParseBufferCodec.
unfoldable pub parse_buffer_codec : SettingType → Text → BufferCodecSetting
parse_buffer_codec missing text = record { mode = auto_mode; warn = false }
parse_buffer_codec string text =
    if same_text text (codes "auto")
    then record { mode = auto_mode; warn = false }
    else if same_text text (codes "mjpeg")
    then record { mode = mjpeg_mode; warn = false }
    else record { mode = auto_mode; warn = true }
parse_buffer_codec other_type text = record { mode = auto_mode; warn = true }

abbrev pub same_vendor : GpuVendor → GpuVendor → Bool
same_vendor unknown unknown = true
same_vendor nvidia nvidia = true
same_vendor amd amd = true
same_vendor intel intel = true
same_vendor other_vendor other_vendor = true
same_vendor _ _ = false

abbrev pub same_family : EncoderFamily → EncoderFamily → Bool
same_family no_family no_family = true
same_family nvenc nvenc = true
same_family amf amf = true
same_family qsv qsv = true
same_family cpu cpu = true
same_family other_family other_family = true
same_family _ _ = false

abbrev pub mem_vendor : GpuVendor → List GpuVendor → Bool
mem_vendor v [] = false
mem_vendor v (x ∷ vendors) = same_vendor x v || mem_vendor v vendors

-- CountFamily; the encoders are far fewer than 2 ^ 32.
unfoldable pub count_family : List EncoderFamily → EncoderFamily → ℕ
count_family [] wanted = 0
count_family (f ∷ families) wanted =
    let rest = count_family families wanted in if same_family f wanted then rest + 1 else rest

pub record HwCandidate : Type 0 where
  pub encoder : Text
  pub codec : CodecId
  pub backend : Backend
  pub vendor : GpuVendor
  pub shares_engine : Bool

pub record Known : Type 0 where
  pub encoder : Text
  pub codec : CodecId
  pub backend : Backend
  pub vendor : GpuVendor

abbrev pub known : Text → CodecId → Backend → GpuVendor → Known
known encoder codec backend vendor = record {
  encoder = encoder;
  codec = codec;
  backend = backend;
  vendor = vendor;
}

-- kCandidates.
abbrev pub known_candidates : List Known
known_candidates =
    known (codes "hevc_nvenc") hevc backend_nvenc nvidia
    ∷ known (codes "hevc_amf") hevc backend_amf amd
    ∷ known (codes "hevc_qsv") hevc backend_qsv intel
    ∷ known (codes "h264_nvenc") h264 backend_nvenc nvidia
    ∷ known (codes "h264_amf") h264 backend_amf amd
    ∷ known (codes "h264_qsv") h264 backend_qsv intel
    ∷ []

pub record RankInput : Type 0 where
  pub mode : BufferCodecMode
  pub workers : Bool
  pub platform_supported : Bool
  pub vendors : List GpuVendor
  pub obs_encoders_known : Bool
  pub obs_encoders : List EncoderFamily
  pub blacklist : List Text
  pub quick_sync_allowed : Bool

abbrev pub is_auto : BufferCodecMode → Bool
is_auto auto_mode = true
is_auto mjpeg_mode = false

-- kMaxObsNvencForBuffer is 3.
unfoldable pub nvenc_allowed : RankInput → Bool
unfolding count_family
nvenc_allowed i = not i.obs_encoders_known || leb (count_family i.obs_encoders nvenc) 3

-- The candidate for a known encoder in RankCandidates.
unfoldable pub candidate_for : RankInput → Known → HwCandidate
unfolding count_family
candidate_for i k = record {
  encoder = k.encoder;
  codec = k.codec;
  backend = k.backend;
  vendor = k.vendor;
  shares_engine =
      not i.obs_encoders_known || ltb 0 (count_family i.obs_encoders (family_of k.backend));
}

abbrev pub is_nvenc_backend : Backend → Bool
is_nvenc_backend backend_nvenc = true
is_nvenc_backend _ = false

abbrev pub is_qsv_backend : Backend → Bool
is_qsv_backend backend_qsv = true
is_qsv_backend _ = false

-- The loop of RankCandidates.
unfoldable pub collect : RankInput → List Known → List HwCandidate
unfolding nvenc_allowed candidate_for
collect i [] = []
collect i (k ∷ table) =
    let rest = collect i table in
    if not (mem_vendor k.vendor i.vendors)
    then rest
    else if is_nvenc_backend k.backend && not (nvenc_allowed i)
    then rest
    else if is_qsv_backend k.backend && not i.quick_sync_allowed
    then rest
    else if mem_text k.encoder i.blacklist
    then rest
    else candidate_for i k ∷ rest

abbrev pub keep {ℓ} : {A : Type ℓ} → (A → Bool) → List A → List A
keep p [] = []
keep p (x ∷ xs) = let rest = keep p xs in if p x then x ∷ rest else rest

-- std::stable_partition: both parts keep their order.
abbrev pub stable_partition {ℓ} : {A : Type ℓ} → (A → Bool) → List A → List A
stable_partition p xs = keep p xs ++ keep (λ x. not (p x)) xs

-- RankCandidates.
unfoldable pub rank_candidates : RankInput → List HwCandidate
unfolding collect
rank_candidates i =
    if not (is_auto i.mode) || not i.workers || not i.platform_supported
    then []
    else stable_partition (λ c. not c.shares_engine) (collect i known_candidates)

pub record EngineShare : Type 0 where
  pub known : Bool
  pub encode : Bool
  pub decode : Bool

-- EngineShare::Any.
abbrev pub any_share : EngineShare → Bool
any_share s = not s.known || s.encode || s.decode

abbrev pub is_engine : EncoderFamily → Bool
is_engine cpu = false
is_engine other_family = false
is_engine _ = true

-- The decode half of ComputeEngineShare.
abbrev pub decode_share : Bool → GpuVendor → List EncoderFamily → Bool
decode_share true amd families = ltb 0 (count_family families amf)
decode_share true intel families = ltb 0 (count_family families qsv)
decode_share _ _ families = false

-- ComputeEngineShare.
unfoldable pub compute_engine_share :
    Backend → Bool → GpuVendor → Bool → List EncoderFamily → EngineShare
unfolding count_family
compute_engine_share encoder hardware_decode decode_vendor obs_known families =
    let family = family_of encoder in
    if not obs_known then record { known = false; encode = false; decode = false } else record {
      known = true;
      encode = is_engine family && ltb 0 (count_family families family);
      decode = decode_share hardware_decode decode_vendor families;
    }
