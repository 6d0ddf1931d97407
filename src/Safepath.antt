-- ===== src/Safepath.antt =====
-- internal/safepath/safepath.go: joining a directory with a name that comes from a client.
pub mod Inside
use selenwright.Prelude.{
  Bool, true, false, List, [], ◌∷◌, ◌++◌, Str, ◌==◌, is_empty, is_abs, clean, join_path, has_prefix,
  not, Result, ok, err, ◌&&◌, if◌then◌else◌,
}

pub data SafepathError : Type 0 where
  empty_root empty_name absolute_path outside : SafepathError

-- `Join`
unfoldable pub join_below : Str → Str → Result SafepathError Str
join_below root name =
    let clean_root = clean root in
    let candidate = clean (join_path clean_root name) in
    if is_empty root
    then err empty_root
    else if is_empty name
    then err empty_name
    else if is_abs name
    then err absolute_path
    else if not (candidate == clean_root) && not (has_prefix candidate (clean_root ++ b'/' ∷ []))
    then err outside
    else ok candidate
