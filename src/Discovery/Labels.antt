-- ===== src/Discovery/Labels.antt =====
-- discovery/parse.go: a browser from the labels of an image.
use selenwright.Prelude.{
  Bool, false, List, [], Option, none, some, Str, StrMap, lit, ◌++◌, lookup, is_empty, equal_fold,
  if◌then◌else◌, ℤ, pos, Result, ok, err, reject, ◌>>=◌, ◌>>◌,
}
use selenwright.Config.{Browser}

-- What is not in the repository: json.Unmarshal into a Browser, a map and a slice of strings, and
-- fmt.Sscanf with `%d`.
pub record Decoders : Type 0 where
  pub browser : Str → Option Browser
  pub string_map : Str → Option (StrMap Str)
  pub string_list : Str → Option (List Str)
  pub scan_int : Str → Option ℤ

abbrev pub label_name : Str → Str
label_name field = lit "io.selenwright." ++ field

pub data LabelError : Type 0 where
  missing unreadable : Str → LabelError

-- `labels[key]`
abbrev pub label : StrMap Str → Str → Str
label labels field = elim (lookup (label_name field) labels) [ none ↦ [] | some v ↦ v ]

-- unmarshalJSONLabel, into a field that is the zero value before.
unfoldable pub unmarshal_label {ℓ} :
    {A : Type ℓ} → (Str → Option A) → StrMap Str → Str → A → Result LabelError A
unmarshal_label decode labels field zero_value =
    let raw = label labels field in
    if is_empty raw
    then ok zero_value
    else (elim (decode raw) [ none ↦ err (unreadable field) | some v ↦ ok v ])

-- The fields that have a label each.
unfoldable pub labelled_browser : Decoders → StrMap Str → Result LabelError Browser
unfolding unmarshal_label
labelled_browser d labels = do
  reject (is_empty (label labels (lit "port"))) (missing (lit "port"))
  shm_size ← unmarshal_label d.scan_int labels (lit "shmSize") (pos 0)
  tmpfs ← unmarshal_label d.string_map labels (lit "tmpfs") []
  env ← unmarshal_label d.string_list labels (lit "env") []
  volumes ← unmarshal_label d.string_list labels (lit "volumes") []
  hosts ← unmarshal_label d.string_list labels (lit "hosts") []
  own_labels ← unmarshal_label d.string_map labels (lit "labels") []
  sysctl ← unmarshal_label d.string_map labels (lit "sysctl") []
  ok (record {
    port = label labels (lit "port");
    path = label labels (lit "path");
    protocol = label labels (lit "protocol");
    tmpfs = tmpfs;
    volumes = volumes;
    env = env;
    hosts = hosts;
    shm_size = shm_size;
    labels = own_labels;
    sysctl = sysctl;
    mem = label labels (lit "mem");
    cpu = label labels (lit "cpu");
    publish_all_ports = false;
  })

pub record Parsed : Type 0 where
  pub browser : Browser
  pub name : Str
  pub version : Str
  pub is_default : Bool

unfoldable pub parse_labels : Decoders → StrMap Str → Result LabelError Parsed
unfolding labelled_browser
parse_labels d labels = do
  reject (is_empty (label labels (lit "browser"))) (missing (lit "browser"))
  reject (is_empty (label labels (lit "version"))) (missing (lit "version"))
  browser ←
      if is_empty (label labels (lit "config"))
      then labelled_browser d labels
      else (elim (d.browser (label labels (lit "config"))) [
        | none ↦ err (unreadable (lit "config"))
        | some b ↦ ok b
      ])
  ok (record {
    browser = browser;
    name = label labels (lit "browser");
    version = label labels (lit "version");
    is_default = equal_fold (label labels (lit "default")) (lit "true");
  })
