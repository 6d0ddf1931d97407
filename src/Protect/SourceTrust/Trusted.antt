-- ===== src/Protect/SourceTrust/Trusted.antt =====
-- What a request that passes the source check has shown.
use selenwright.Prelude.{
  ◌≡◌, ◌↔◌, refl, true, false, List, [], ◌∷◌, ◌++◌, map, any, Option, none, some, Str, ==_iff, elem,
  is_empty, Result, ok, err, arith, inl, inr, ◌⊎◌, Bool-cases, Option-cases, ap, sym, ◌∙◌,
}
use selenwright.Protect.Request.{Request}
use selenwright.Protect.SourceTrust.{
  Network, Untrusted, SourceTrust, SourceTrustConfig, header_router_secret, update, from_trusted_ip,
  remote_ip, ip_in_any, check_certificate, check, intermediates, source_trust_middleware,
}

handed_on :
    (u : Result Untrusted (Unit {0})) → elim u [ err e ↦ false | ok _ ↦ true ] ≡ true → u ≡ ok tt
handed_on (err e) h = cc
handed_on (ok _) h = refl

-- All the elements of some lists.
abbrev flatten : List (List Str) → List Str
flatten [] = []
flatten (xs ∷ xss) = xs ++ flatten xss

module _ (net : Network) where
  intermediates-flatten :
      (chains : List (Str × List Str)) → intermediates net chains ≡ flatten (map (λ c. c.1) chains)
  intermediates-flatten [] = refl
  intermediates-flatten ((leaf, rest) ∷ chains) =
      ap (λ xs. rest ++ xs) (intermediates-flatten chains)

  -- The address of a request: that of its host where it has a port, or as it is.
  abbrev pub IsFrom : Request → net.Ip → Type 0
  IsFrom r ip =
      ((host : Str) × (net.split_host_port r.remote_addr ≡ some host)
        × (net.parse_ip host ≡ some ip))
      ⊎ ((net.split_host_port r.remote_addr ≡ none) × (net.parse_ip r.remote_addr ≡ some ip))

  -- The leaf of the first chain that TLS has verified, and, where the authorities are given, a path
  -- from it to one of them by way of the rest of all the chains.
  abbrev pub HasCertificate : Option net.Pool → Request → Type 0
  HasCertificate cas r =
      (leaf : Str) × (rest : List Str) × (chains : List (Str × List Str)) × (r.verified_chains
        ≡ some ((leaf, rest) ∷ chains))
      × ((cas ≡ none)
          ⊎ ((pool : net.Pool) × (cas ≡ some pool)
              × (net.verify pool leaf (flatten (rest ∷ map (λ c. c.1) chains)) ≡ true)))

  -- Each of the three means that the configuration asks for has been shown.
  pub record Shown (cfg : SourceTrustConfig net) (r : Request) : Type 0 where
    pub knows_secret : (is_empty cfg.secret ≡ true) ⊎ (r.header header_router_secret ≡ cfg.secret)
    pub comes_from :
        (is_empty cfg.trusted_cidrs ≡ true)
        ⊎ ((ip : net.Ip) × IsFrom r ip × (any (λ c. net.contains c ip) cfg.trusted_cidrs ≡ true))
    pub has_certificate : (cfg.require_mtls ≡ false) ⊎ HasCertificate cfg.allowed_root_cas r

  from_trusted_ip_iff :
      (r : Request) (cidrs : List net.Cidr)
      → (from_trusted_ip net r cidrs ≡ true)
        ↔ ((ip : net.Ip) × IsFrom r ip × (any (λ c. net.contains c ip) cidrs ≡ true))
  unfolding from_trusted_ip remote_ip ip_in_any
  from_trusted_ip_iff r cidrs = (
    λ h. elim (Option-cases (net.split_host_port r.remote_addr)) [
      | inl bare ↦ elim (Option-cases (net.parse_ip r.remote_addr)) [
        | inl bad ↦ absurd (ground (arith, h, bare, bad))
        | inr (ip, parsed) ↦ (ip, inr (bare, parsed), ground (arith, h, bare, parsed))
      ]
      | inr (host, cut) ↦ elim (Option-cases (net.parse_ip host)) [
        | inl bad ↦ absurd (ground (arith, h, cut, bad))
        | inr (ip, parsed) ↦ (ip, inl (host, cut, parsed), ground (arith, h, cut, parsed))
      ]
    ],
    λ (ip, from, inside). elim from [
      | inl (host, cut, parsed) ↦ ground (arith, cut, parsed, inside)
      | inr (bare, parsed) ↦ ground (arith, bare, parsed, inside)
    ],
  )

  verified-HasCertificate :
      (cas : Option net.Pool) (chains : Option (List (Str × List Str))) (r : Request)
      → r.verified_chains ≡ chains
      → check_certificate net cas chains ≡ ok tt
      → HasCertificate cas r
  unfolding check_certificate
  verified-HasCertificate cas none r given h = absurd (ground (arith, h))
  verified-HasCertificate cas (some []) r given h = absurd (ground (arith, h))
  verified-HasCertificate none (some ((leaf, rest) ∷ chains)) r given h =
      (leaf, rest, chains, given, inl refl)
  verified-HasCertificate (some pool) (some ((leaf, rest) ∷ chains)) r given h = (
    leaf,
    rest,
    chains,
    given,
    inr (
      pool,
      refl,
      ap (net.verify pool leaf) (sym (intermediates-flatten ((leaf, rest) ∷ chains)))
          ∙ ground (arith, h),
    ),
  )

  HasCertificate-verified :
      (cas : Option net.Pool) (r : Request)
      → HasCertificate cas r
      → check_certificate net cas r.verified_chains ≡ ok tt
  unfolding check_certificate
  HasCertificate-verified cas r (leaf, rest, chains, given, fits) =
      let all = (leaf, rest) ∷ chains in
      ap (check_certificate net cas) given ∙ (elim fits [
        | inl any_ca ↦ ap (λ c. check_certificate net c (some all)) any_ca
        | inr (pool, some_ca, path) ↦
            let good : net.verify pool leaf (intermediates net all) ≡ true =
              ap (net.verify pool leaf) (intermediates-flatten all) ∙ path in
            ap (λ c. check_certificate net c (some all)) some_ca ∙ ground (arith, good)
      ])

  check-Shown :
      (cfg : SourceTrustConfig net) (old : SourceTrust net) (r : Request)
      → check net (update net cfg old) r ≡ ok tt
      → Shown cfg r
  unfolding check update
  check-Shown cfg old r e = record {
    knows_secret = elim (Bool-cases (is_empty cfg.secret)) [
      | inl h ↦ inl h
      | inr h ↦ inr ((==_iff _ _).0 (ground arith))
    ];
    comes_from = elim (Bool-cases (is_empty cfg.trusted_cidrs)) [
      | inl h ↦ inl h
      | inr h ↦ inr ((from_trusted_ip_iff r cfg.trusted_cidrs).0 (ground arith))
    ];
    has_certificate = elim (Bool-cases cfg.require_mtls) [
      | inl h ↦
          inr (verified-HasCertificate cfg.allowed_root_cas r.verified_chains r refl (ground arith))
      | inr h ↦ inl h
    ];
  }

  Shown-check :
      (cfg : SourceTrustConfig net) (old : SourceTrust net) (r : Request)
      → Shown cfg r
      → check net (update net cfg old) r ≡ ok tt
  unfolding check update
  Shown-check cfg old r s =
      let place : (is_empty cfg.trusted_cidrs ≡ true)
          ⊎ (from_trusted_ip net r cfg.trusted_cidrs ≡ true) =
        elim s.comes_from [
          | inl h ↦ inl h
          | inr h ↦ inr ((from_trusted_ip_iff r cfg.trusted_cidrs).1 h)
        ] in
      let shown : (cfg.require_mtls ≡ false)
          ⊎ (check_certificate net cfg.allowed_root_cas r.verified_chains ≡ ok tt) =
        elim s.has_certificate [
          | inl h ↦ inl h
          | inr h ↦ inr (HasCertificate-verified cfg.allowed_root_cas r h)
        ] in
      let secret = s.knows_secret in
      ground (arith, secret, place, shown, ==_iff (r.header header_router_secret) cfg.secret)

  off-Shown :
      (cfg : SourceTrustConfig net) (old : SourceTrust net) (r : Request)
      → (update net cfg old).enabled ≡ false
      → Shown cfg r
  unfolding update
  off-Shown cfg old r off = record {
    knows_secret = inl (ground arith);
    comes_from = inl (ground arith);
    has_certificate = inl (ground arith);
  }

  -- After any Update, a request to a path that is not open is handed on exactly when it has shown
  -- what that Update's configuration asks for: the router's secret, a source address in a trusted
  -- network, a client certificate, which verifies against the authorities where they are given; a
  -- means that is not configured is not asked for.
  pub source_trust_middleware-update_iff :
      (open_paths : List Str) (cfg : SourceTrustConfig net) (old : SourceTrust net) (r : Request)
      → elem r.path open_paths ≡ false
      → (source_trust_middleware net open_paths (some (update net cfg old)) r ≡ true) ↔ Shown cfg r
  unfolding source_trust_middleware
  source_trust_middleware-update_iff open_paths cfg old r closed = (
    λ passed. elim (Bool-cases (update net cfg old).enabled) [
      | inl on ↦ check-Shown cfg old r (handed_on (check net (update net cfg old) r) (ground arith))
      | inr off ↦ off-Shown cfg old r off
    ],
    λ s. ground (arith, Shown-check cfg old r s),
  )
