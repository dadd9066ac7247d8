-- ===== src/BufferMode/Host.antt =====
-- The settings of src/buffer-mode-controller.cpp, and src/core-host.cpp's ApplyConfig, which brings a
-- host's settings to the controller.
use obs_trigglow_dynamic_del.Prelude.{ℕ, Bool, true, false, not, ◌||◌, [], ◌==◌, if◌then◌else◌}
use obs_trigglow_dynamic_del.BufferMode.{Status, Bridge, is_busy, World, inactive, no_key}
use obs_trigglow_dynamic_del.BufferMode.Texts.{Text, same_text}
use obs_trigglow_dynamic_del.BufferMode.Ops.{
  clamp_corner, set_state, set_delay_seconds, set_min_resolution_height, set_live_scene,
  set_loading_scene, set_show_overlay, set_overlay_corner,
}

-- SettingsSnapshot.
pub record Settings : Type 0 where
  pub delay_seconds : ℕ
  pub min_resolution_height : ℕ
  pub live_scene_name : Text
  pub loading_scene_name : Text
  pub show_overlay : Bool
  pub overlay_corner : ℕ
  pub output_cap : Bool
  pub codec_workers : Bool
  pub codec_auto : Bool

-- Config of the host, and what it keeps of the last one: the badge.
pub record Config : Type 0 where
  pub settings : Settings
  pub badge_prefix : Text
  pub badge_token : ℕ

pub record Host (b : Bridge) : Type 0 where
  pub world : World b
  pub loaded : Bool
  pub badge_prefix : Text
  pub badge_token : ℕ

abbrev pub same_bool : Bool → Bool → Bool
same_bool true x = x
same_bool false x = not x

module _ {b : Bridge} where
  -- LoadSettings.
  unfoldable pub load_settings : World b → Settings → World b
  unfolding set_state
  load_settings w s =
      let status = record w.ctl.status {
        delay_seconds = s.delay_seconds;
        min_resolution_height = s.min_resolution_height;
        live_scene_name = s.live_scene_name;
        loading_scene_name = s.loading_scene_name;
        show_overlay = s.show_overlay;
        overlay_corner = clamp_corner s.overlay_corner;
        effective_delay_seconds = 0;
      } in
      let ctl = record w.ctl {
        output_cap = s.output_cap;
        codec_workers = s.codec_workers;
        codec_auto = s.codec_auto;
        status = status;
      } in
      set_state (record w { ctl = ctl }) inactive no_key []

  -- SaveSettings.
  unfoldable pub save_settings : World b → Settings
  save_settings w = record {
    delay_seconds = w.ctl.status.delay_seconds;
    min_resolution_height = w.ctl.status.min_resolution_height;
    live_scene_name = w.ctl.status.live_scene_name;
    loading_scene_name = w.ctl.status.loading_scene_name;
    show_overlay = w.ctl.status.show_overlay;
    overlay_corner = w.ctl.status.overlay_corner;
    output_cap = w.ctl.output_cap;
    codec_workers = w.ctl.codec_workers;
    codec_auto = w.ctl.codec_auto;
  }

  -- The scenes in ApplyConfig: the pickers are locked while the delay runs.
  unfoldable pub apply_scenes : World b → Settings → World b
  unfolding set_live_scene set_loading_scene
  apply_scenes w s =
      let live =
        if same_text s.live_scene_name w.ctl.status.live_scene_name
        then w
        else set_live_scene w s.live_scene_name in
      let loading =
        if same_text s.loading_scene_name w.ctl.status.loading_scene_name
        then live
        else set_loading_scene live s.loading_scene_name in
      if is_busy w.ctl.status.state then w else loading

  -- The settings in ApplyConfig that differ from the status `old`, and the overlay that is drawn again
  -- for another badge.
  unfoldable pub apply_settings : World b → Status → Settings → Bool → World b
  unfolding set_delay_seconds set_min_resolution_height set_overlay_corner set_show_overlay
  apply_settings w old s badges_changed =
      let delayed =
        if s.delay_seconds == old.delay_seconds then w else set_delay_seconds w s.delay_seconds in
      let raised =
        if s.min_resolution_height == old.min_resolution_height
        then delayed
        else set_min_resolution_height delayed s.min_resolution_height in
      let turned =
        if s.overlay_corner == old.overlay_corner
        then raised
        else set_overlay_corner raised s.overlay_corner in
      if not (same_bool s.show_overlay old.show_overlay) || badges_changed
      then set_show_overlay turned s.show_overlay
      else turned

  -- ApplyConfig.
  unfoldable pub apply_config : Host b → Config → Host b
  unfolding load_settings apply_scenes apply_settings
  apply_config h c =
      let w = if h.loaded then h.world else load_settings h.world c.settings in
      let badges_changed =
        not (same_text c.badge_prefix h.badge_prefix) || not (c.badge_token == h.badge_token) in
      record {
        world = apply_settings (apply_scenes w c.settings) w.ctl.status c.settings badges_changed;
        loaded = true;
        badge_prefix = c.badge_prefix;
        badge_token = c.badge_token;
      }
