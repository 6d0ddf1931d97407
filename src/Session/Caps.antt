-- ===== src/Session/Caps.antt =====
-- session/session.go: the capabilities of a session.
use selenwright.Prelude.{ℕ, Bool, List, Str, StrMap, if◌then◌else◌, is_empty}

-- `Caps` without its field ExtensionCapabilities.
pub record Caps : Type 0 where
  pub name : Str
  pub device_name : Str
  pub version : Str
  pub w3c_version : Str
  pub platform : Str
  pub w3c_platform : Str
  pub w3c_device_name : Str
  pub screen_resolution : Str
  pub skin : Str
  pub vnc : Bool
  pub video : Bool
  pub log : Bool
  pub video_name : Str
  pub video_screen_size : Str
  pub video_frame_rate : ℕ
  pub video_codec : Str
  pub log_name : Str
  pub test_name : Str
  pub time_zone : Str
  pub container_hostname : Str
  pub env : List Str
  pub application_containers : List Str
  pub additional_networks : List Str
  pub hosts_entries : List Str
  pub dns_servers : List Str
  pub labels : StrMap Str
  pub session_timeout : Str
  pub s3_key_pattern : Str

-- As a client sends them: with or without the field ExtensionCapabilities.
pub data WireCaps : Type 0 where
  plain : Caps → WireCaps
  extended : Caps → WireCaps → WireCaps

abbrev pub own_caps : WireCaps → Caps
own_caps (plain c) = c
own_caps (extended c e) = c

-- The fields of the W3C dialect replace those of the older one where they are given.
abbrev pub apply_w3c : Caps → Caps
apply_w3c c = record c {
  version = if is_empty c.w3c_version then c.version else c.w3c_version;
  platform = if is_empty c.w3c_platform then c.platform else c.w3c_platform;
  device_name = if is_empty c.w3c_device_name then c.device_name else c.w3c_device_name;
}

-- `merge_override` is mergo.Merge(dst, src, mergo.WithOverride), which is not in the repository.
unfoldable pub process_extension_capabilities : (Caps → WireCaps → Caps) → WireCaps → Caps
process_extension_capabilities merge_override (plain c) = apply_w3c c
process_extension_capabilities merge_override (extended c e) = merge_override (apply_w3c c) e

unfoldable pub browser_name : Caps → Str
browser_name c =
    if is_empty c.name
    then (if is_empty c.device_name then c.w3c_device_name else c.device_name)
    else c.name
