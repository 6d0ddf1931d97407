-- ===== src/Protect/Request.antt =====
-- What the handlers read of an *http.Request, as net/http and net/url present it.
use selenwright.Prelude.{Bool, List, [], Option, Str, equal_fold, if◌then◌else◌}

-- `header name` is Header.Get, empty where there is none; a TLS chain is its leaf and the rest.
pub record Request : Type 0 where
  pub method : Str
  pub path : Str
  pub header : Str → Str
  pub query_has_token : Bool
  pub query_token : Str
  pub cookie : Str → Option Str
  pub basic_auth : Option (Str × Str)
  pub remote_addr : Str
  pub verified_chains : Option (List (Str × List Str))

-- `r.Header.Del(name)`
abbrev pub del_header : Str → Request → Request
del_header name r = record r { header = λ n. if equal_fold n name then [] else r.header n }
