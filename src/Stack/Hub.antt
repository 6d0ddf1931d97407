-- ===== src/Stack/Hub.antt =====
-- stack_versions.go: the tags of a repository on Docker Hub, page by page, and their cache.
pub mod Recent
use selenwright.Prelude.{
  ℕ, zero, suc, ◌+◌, ◌*◌, ◌^◌, Bool, true, false, List, [], ◌∷◌, ◌++◌, Option, none, some, Str,
  StrMap, lit, is_empty, lookup, insert, ltb, leb, eqb, if◌then◌else◌, Result, ok, err,
}

pub record HubTag : Type 0 where
  pub name : Str
  pub last_updated : ℕ

pub data HubError : Type 0 where
  request_failed fetch_failed repository_not_found decode_failed : HubError
  bad_status : ℕ → HubError

-- What a GET of a page gives: no request, no response, a status with a body that is a page or none.
pub data Reply : Type 0 where
  no_request no_response : Reply
  responds : ℕ → Option (Option Str × List HubTag) → Reply

abbrev pub hub_max_pages : ℕ
hub_max_pages = 5

-- In nanoseconds.
abbrev pub hub_cache_ttl : ℕ
hub_cache_ttl = 300 * 10 ^ 9

abbrev pub hub_neg_cache_ttl : ℕ
hub_neg_cache_ttl = 30 * 10 ^ 9

-- The body of the loop: the tags of a page and the address of the next one, where there is one.
unfoldable pub read_page : Reply → Result HubError (List HubTag × Option Str)
read_page no_request = err request_failed
read_page no_response = err fetch_failed
read_page (responds status body) =
    if eqb status 404
    then err repository_not_found
    else if leb 400 status
    then err (bad_status status)
    else (elim body [
      | none ↦ err decode_failed
      | some (next, results) ↦ elim next [
        | none ↦ ok (results, none)
        | some url ↦ ok (results, if is_empty url then none else some url)
      ]
    ])

-- The loop, with the number of pages that it may still read.
unfoldable pub fetch_pages : (Str → Reply) → ℕ → Str → List HubTag → Result HubError (List HubTag)
unfolding read_page
fetch_pages get zero page_url all = ok all
fetch_pages get (suc pages) page_url all = elim (read_page (get page_url)) [
  | err e ↦ err e
  | ok (results, next) ↦ elim next [
    | none ↦ ok (all ++ results)
    | some url ↦ fetch_pages get pages url (all ++ results)
  ]
]

-- `path_escape` is url.PathEscape.
unfoldable pub do_fetch :
    (Str → Str) → Str → (Str → Reply) → Str → Str → Result HubError (List HubTag)
unfolding fetch_pages
do_fetch path_escape base_url get ns repo =
    fetch_pages get hub_max_pages
      (base_url ++ b'/' ∷ path_escape ns ++ b'/' ∷ path_escape repo ++ lit "/tags?page_size=100") []

pub record HubCacheEntry : Type 0 where
  pub answer : Result HubError (List HubTag)
  pub fetched : ℕ

abbrev pub HubTagCache : Type 0
HubTagCache = StrMap HubCacheEntry

abbrev pub ttl_of : Result HubError (List HubTag) → ℕ
ttl_of (ok tags) = hub_cache_ttl
ttl_of (err e) = hub_neg_cache_ttl

abbrev pub key_of : Str → Str → Str
key_of ns repo = ns ++ b'/' ∷ repo

-- The answer of the cache, where it has one that is young enough.
unfoldable pub cached : ℕ → Str → HubTagCache → Option (Result HubError (List HubTag))
cached now key c = elim (lookup key c) [
  | none ↦ none
  | some e ↦ if ltb now (e.fetched + ttl_of e.answer) then some e.answer else none
]

-- `fresh` is what doFetch gives, which returns at the time `done`.
unfoldable pub fetch_hub_tags :
    Result HubError (List HubTag)
    → ℕ
    → ℕ
    → Str
    → HubTagCache
    → HubTagCache × Result HubError (List HubTag)
unfolding cached
fetch_hub_tags fresh now done key c = elim (cached now key c) [
  | some answer ↦ (c, answer)
  | none ↦ (insert key (record { answer = fresh; fetched = done }) c, fresh)
]
