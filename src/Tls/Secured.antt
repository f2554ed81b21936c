-- ===== src/Tls/Secured.antt =====
-- What internal/tls/tls.go makes when TLS is on.
use distributed_job_processo.Base.{
  String, ◌≡◌, refl, ◌⊎◌, inl, inr, true, Option, none, some, [], ◌∷◌, str_eq, eq_iff,
  if◌then◌else◌, Bool-cases,
}
use distributed_job_processo.Tls.{
  TlsConfig, Settings, Files, HttpServer, HttpClient, Made, made, refused, with_certificate,
  create_tls_config, server_with, create_https_server, client_with, with_roots, with_file,
  create_http_client,
}

module _ {Certificate Pem Roots : Type 0} (files : Files Certificate Pem Roots) (t : TlsConfig)
    (on : t.enabled ≡ true) where
  -- A server with the certificate of the two files, for TLS 1.2 and later, with the suites of
  -- the package.
  abbrev pub SecuredServer : String → HttpServer Certificate Roots → Type 0
  SecuredServer addr s =
      (c : Certificate) × (files.load_key_pair t.cert_file t.key_file ≡ some c)
      × (s ≡ record {
        addr = addr;
        settings = some (record {
          certificates = c ∷ [];
          min_version = 0x0303;
          suites = 0xc030 ∷ 0xcca8 ∷ 0xc02f ∷ [];
          roots = none;
        });
      })

  -- The settings for TLS 1.2 (0x0303) and later with these roots.
  abbrev trusting : Option Roots → Settings Certificate Roots
  trusting roots = record { certificates = []; min_version = 0x0303; suites = []; roots = roots }

  -- A client for TLS 1.2 and later, without a certificate of its own, that trusts the certificates of the file, or those of the
  -- system if there is no file.
  abbrev pub SecuredClient : String → HttpClient Certificate Roots → Type 0
  SecuredClient ca_cert_file c =
      ((ca_cert_file ≡ "") × (c ≡ record { settings = some (trusting none) }))
      ⊎ ((pem : Pem) × (roots : Roots) × (files.read_file ca_cert_file ≡ some pem)
          × (files.parse_roots pem ≡ some roots)
          × (c ≡ record { settings = some (trusting (some roots)) }))

  -- What is made fulfils a predicate.
  abbrev pub Ensures : {A : Type 0} → (A → Type 0) → Made A → Type 0
  Ensures P (made a) = P a
  Ensures P refused = Unit

  server-Secured :
      (addr : String) (o : Option Certificate)
      → files.load_key_pair t.cert_file t.key_file ≡ o
      → Ensures (SecuredServer addr) (server_with files addr (with_certificate files o))
  server-Secured addr none loaded = tt
  server-Secured addr (some c) loaded = (c, loaded, refl)

  roots-Secured :
      (ca_cert_file : String) (pem : Pem) (o : Option Roots)
      → files.read_file ca_cert_file ≡ some pem
      → files.parse_roots pem ≡ o
      → Ensures (SecuredClient ca_cert_file) (with_roots files o)
  roots-Secured ca_cert_file pem none read parsed = tt
  roots-Secured ca_cert_file pem (some roots) read parsed = inr (pem, roots, read, parsed, refl)

  file-Secured :
      (ca_cert_file : String) (o : Option Pem)
      → files.read_file ca_cert_file ≡ o
      → Ensures (SecuredClient ca_cert_file) (with_file files o)
  file-Secured ca_cert_file none read = tt
  file-Secured ca_cert_file (some pem) read =
      roots-Secured ca_cert_file pem (files.parse_roots pem) read refl

  client-Secured :
      (ca_cert_file : String)
      → Ensures (SecuredClient ca_cert_file) (
          if str_eq ca_cert_file ""
          then made (client_with files none)
          else with_file files (files.read_file ca_cert_file))
  client-Secured ca_cert_file = elim (Bool-cases (str_eq ca_cert_file "")) [
    | inl e ↦ rw e (inl ((eq_iff ca_cert_file "").0 e, refl))
    | inr e ↦ rw e (file-Secured ca_cert_file (files.read_file ca_cert_file) refl)
  ]

  -- With TLS on, no server and no client is made in the clear: a server that is made has the
  -- certificate of its two files, and a client trusts what its file holds, or the system's
  -- certificates if no file is named; both take TLS 1.2 (0x0303) at least.
  pub made-Secured :
      (addr ca_cert_file : String)
      → Ensures (SecuredServer addr) (create_https_server files t addr)
        × Ensures (SecuredClient ca_cert_file) (create_http_client files t ca_cert_file)
  unfolding create_https_server create_http_client create_tls_config
  made-Secured addr ca_cert_file =
      (rw on (server-Secured addr _ refl), rw on (client-Secured ca_cert_file))
