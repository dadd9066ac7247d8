-- ===== src/CodecSelect/Tests.antt =====
-- The ranking of src/storage-codec-select.cpp for two GPUs, while OBS encodes with NVENC.
use obs_trigglow_dynamic_del.Prelude.{◌≡◌, ◌↔◌, refl, true, false, not, ◌||◌, [], ◌∷◌}
use obs_trigglow_dynamic_del.BufferMode.Texts.{codes, nvenc}
use obs_trigglow_dynamic_del.Select.{hevc}
use obs_trigglow_dynamic_del.CodecSelect.{
  nvidia, intel, auto_mode, RankInput, HwCandidate, backend_qsv, rank_candidates,
  compute_engine_share,
}
use obs_trigglow_dynamic_del.CodecSelect.Members.{IsIn, here}
use obs_trigglow_dynamic_del.CodecSelect.Rank.{is_ranked, IsWorthwhile, rank_candidates-IsIn}
use obs_trigglow_dynamic_del.CodecSelect.Order.{
  IsOrdered, rank_candidates-IsOrdered, shares-compute_engine_share,
}

abbrev two_gpus : RankInput
two_gpus = record {
  mode = auto_mode;
  workers = true;
  platform_supported = true;
  vendors = nvidia ∷ intel ∷ [];
  obs_encoders_known = true;
  obs_encoders = nvenc ∷ [];
  blacklist = codes "h264_nvenc" ∷ [];
  quick_sync_allowed = true;
}

-- Quick Sync, which OBS does not use, comes first.
abbrev quick_sync : HwCandidate
quick_sync = record {
  encoder = codes "hevc_qsv";
  codec = hevc;
  backend = backend_qsv;
  vendor = intel;
  shares_engine = false;
}

quick_sync_first : IsIn quick_sync (rank_candidates two_gpus)
unfolding rank_candidates
quick_sync_first = here refl

IsIn-quick_sync :
    IsIn quick_sync (rank_candidates two_gpus)
    ↔ ((is_ranked two_gpus ≡ true) × IsWorthwhile two_gpus quick_sync)
IsIn-quick_sync = rank_candidates-IsIn two_gpus quick_sync

IsOrdered-two_gpus : IsOrdered two_gpus (rank_candidates two_gpus)
IsOrdered-two_gpus = rank_candidates-IsOrdered two_gpus refl

quick_sync_alone :
    false ≡ (not true || (compute_engine_share backend_qsv true intel true (nvenc ∷ [])).encode)
quick_sync_alone = shares-compute_engine_share two_gpus quick_sync true intel quick_sync_first
