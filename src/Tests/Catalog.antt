-- ===== src/Tests/Catalog.antt =====
-- Runs of the choice of a browser's version.
use selenwright.Prelude.{
  ◌≡◌, refl, true, [], ◌∷◌, Option, none, some, Str, StrMap, lit, ◌==◌, lookup, has_prefix,
  equal_fold, ℤ, pos,
}
use selenwright.Config.{Browser, Versions, find, effective}
use selenwright.Config.Choice.{Chooses, find-Chooses}

abbrev pub chrome : Browser
chrome = record {
  port = lit "4444";
  path = lit "/";
  protocol = [];
  tmpfs = [];
  volumes = [];
  env = [];
  hosts = [];
  shm_size = pos 0;
  labels = [];
  sysctl = [];
  mem = [];
  cpu = [];
  publish_all_ports = true;
}

abbrev versions_of_chrome : Versions
versions_of_chrome = record {
  default = lit "12";
  versions = (lit "119.0", some chrome) ∷ (lit "120.0", some chrome) ∷ [];
}

abbrev browsers : StrMap Versions
browsers = (lit "chrome", versions_of_chrome) ∷ []

abbrev no_number : Str → Option ℤ
no_number s = none

known_chrome : lookup (lit "chrome") browsers ≡ some versions_of_chrome
unfolding lookup ◌==◌
known_chrome = refl

finds_default :
    find no_number browsers (lit "chrome") []
    ≡ record { browser = some chrome; version = lit "120.0"; ok = true }
unfolding find lookup ◌==◌ has_prefix equal_fold
finds_default = refl

find-Chooses_example :
    Chooses no_number versions_of_chrome.versions
      (effective versions_of_chrome [])
      (lit "120.0")
      (some chrome)
find-Chooses_example =
    find-Chooses no_number browsers (lit "chrome") [] (lit "120.0") versions_of_chrome (some chrome)
      known_chrome (unfold lookup ◌==◌ in (refl, (refl, tt))) finds_default
