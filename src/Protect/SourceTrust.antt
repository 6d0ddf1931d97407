-- ===== src/Protect/SourceTrust.antt =====
-- protect/source_trust.go: which network sources may talk to the service at all. The packages
-- net and crypto/x509 are the parameter `Network`.
pub mod Trusted
use selenwright.Prelude.{
  Bool, true, false, List, [], ◌∷◌, ◌++◌, map, Option, none, some, Str, lit, ◌==◌, elem, is_empty,
  is_some, trim_space, any, not, Result, ok, err, reject, ◌>>=◌, ◌>>◌, ◌||◌, ◌&&◌, if◌then◌else◌,
}
use selenwright.Protect.Request.{Request, del_header}

-- `verify pool leaf intermediates` is x509.Certificate.Verify.
pub record Network : Type 1 where
  pub Cidr : Type 0
  pub Ip : Type 0
  pub Pool : Type 0
  pub split_host_port : Str → Option Str
  pub parse_ip : Str → Option Ip
  pub parse_cidr : Str → Option Cidr
  pub contains : Cidr → Ip → Bool
  pub verify : Pool → Str → List Str → Bool

abbrev pub header_router_secret : Str
header_router_secret = lit "X-Router-Secret"

pub data Untrusted : Type 0 where
  bad_secret bad_source certificate_required certificate_not_trusted : Untrusted

module _ (net : Network) where
  pub record SourceTrust : Type 0 where
    pub secret : Str
    pub trusted_cidrs : List net.Cidr
    pub require_mtls : Bool
    pub allowed_root_cas : Option net.Pool
    pub strip_headers : List Str
    pub enabled : Bool

  -- `strip_headers` is `none` for nil, which keeps the headers set before.
  pub record SourceTrustConfig : Type 0 where
    pub secret : Str
    pub trusted_cidrs : List net.Cidr
    pub require_mtls : Bool
    pub allowed_root_cas : Option net.Pool
    pub strip_headers : Option (List Str)

  pub update : SourceTrustConfig → SourceTrust → SourceTrust
  update cfg st = record st {
    secret = cfg.secret;
    trusted_cidrs = cfg.trusted_cidrs;
    require_mtls = cfg.require_mtls;
    allowed_root_cas = cfg.allowed_root_cas;
    strip_headers = elim cfg.strip_headers [ none ↦ st.strip_headers | some hs ↦ hs ];
    enabled = not (is_empty cfg.secret) || not (is_empty cfg.trusted_cidrs) || cfg.require_mtls;
  }

  pub new_source_trust : SourceTrustConfig → SourceTrust
  unfolding update
  new_source_trust cfg = update cfg (record {
    secret = [];
    trusted_cidrs = [];
    require_mtls = false;
    allowed_root_cas = none;
    strip_headers = elim cfg.strip_headers [ none ↦ [] | some hs ↦ hs ];
    enabled = false;
  })

  pub ip_in_any : net.Ip → List net.Cidr → Bool
  ip_in_any ip cidrs = any (λ c. net.contains c ip) cidrs

  pub remote_ip : Request → Option net.Ip
  remote_ip r = elim (net.split_host_port r.remote_addr) [
    | none ↦ net.parse_ip r.remote_addr
    | some host ↦ net.parse_ip host
  ]

  pub from_trusted_ip : Request → List net.Cidr → Bool
  from_trusted_ip r cidrs = elim (remote_ip r) [ none ↦ false | some ip ↦ ip_in_any ip cidrs ]

  abbrev intermediates : List (Str × List Str) → List Str
  intermediates [] = []
  intermediates ((leaf, rest) ∷ chains) = rest ++ intermediates chains

  -- The part of Check under requireMTLS.
  pub check_certificate :
      Option net.Pool → Option (List (Str × List Str)) → Result Untrusted (Unit {0})
  check_certificate pool none = err certificate_required
  check_certificate pool (some []) = err certificate_required
  check_certificate none (some ((leaf, rest) ∷ chains)) = ok tt
  check_certificate (some pool) (some ((leaf, rest) ∷ chains)) =
      if net.verify pool leaf (intermediates ((leaf, rest) ∷ chains))
      then ok tt
      else err certificate_not_trusted

  pub check : SourceTrust → Request → Result Untrusted (Unit {0})
  check st r = do
    reject (not (is_empty st.secret) && not (r.header header_router_secret == st.secret)) bad_secret
    reject (not (is_empty st.trusted_cidrs) && not (from_trusted_ip r st.trusted_cidrs)) bad_source
    if st.require_mtls then check_certificate st.allowed_root_cas r.verified_chains else ok tt

  strip_all : List Str → Request → Request
  strip_all [] r = r
  strip_all (h ∷ hs) r = strip_all hs (del_header h r)

  pub strip_from_request : SourceTrust → Request → Request
  unfolding strip_all
  strip_from_request st r = strip_all st.strip_headers r

  -- Whether SourceTrustMiddleware hands the request on; otherwise it answers 401.
  unfoldable pub source_trust_middleware : List Str → Option SourceTrust → Request → Bool
  source_trust_middleware open_paths st r = if elem r.path open_paths then true else (elim st [
    | none ↦ true
    | some t ↦ if t.enabled then (elim (check t r) [ err e ↦ false | ok _ ↦ true ]) else true
  ])

  pub parse_cidrs : List Str → Result Str (List net.Cidr)
  parse_cidrs [] = ok []
  parse_cidrs (raw ∷ rest) = elim (trim_space raw) [
    | [] ↦ parse_cidrs rest
    | c ∷ s ↦ elim (net.parse_cidr (c ∷ s)) [
      | none ↦ err (c ∷ s)
      | some network ↦ elim (parse_cidrs rest) [
        | err e ↦ err e
        | ok networks ↦ ok (network ∷ networks)
      ]
    ]
  ]
