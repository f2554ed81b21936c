-- ===== src/Tls.antt =====
-- internal/tls/tls.go: the TLS configuration of servers and clients. The certificates and the
-- files are those of crypto/tls, crypto/x509 and io/ioutil, as parameters.
pub mod Secured
use distributed_job_processo.Base.{
  ℕ, String, Bool, Option, none, some, List, [], ◌∷◌, str_eq, if◌then◌else◌,
}
use distributed_job_processo.Config.{SecurityConfig}

-- `TLSConfig`
pub record TlsConfig : Type 0 where
  pub enabled : Bool
  pub cert_file : String
  pub key_file : String

unfoldable pub new_tls_config : SecurityConfig → TlsConfig
new_tls_config cfg = record {
  enabled = cfg.tls_enabled;
  cert_file = cfg.cert_file;
  key_file = cfg.key_file;
}

-- What the package uses of the libraries: `LoadX509KeyPair`, `ReadFile` and a new pool with
-- `AppendCertsFromPEM`; `none` is an error, or that no certificate was parsed.
pub record Files (Certificate Pem Roots : Type 0) : Type 0 where
  pub load_key_pair : (cert_file key_file : String) → Option Certificate
  pub read_file : String → Option Pem
  pub parse_roots : Pem → Option Roots

abbrev pub version_tls12 : ℕ
version_tls12 = 0x0303

-- TLS_ECDHE_RSA_WITH_AES_256_GCM_SHA384, …_CHACHA20_POLY1305 and …_AES_128_GCM_SHA256
abbrev pub cipher_suites : List ℕ
cipher_suites = 0xc030 ∷ 0xcca8 ∷ 0xc02f ∷ []

-- The fields of `tls.Config` that the package sets.
pub record Settings (Certificate Roots : Type 0) : Type 0 where
  pub certificates : List Certificate
  pub min_version : ℕ
  pub suites : List ℕ
  pub roots : Option Roots

-- `http.Server` and `http.Client`, as far as TLS goes; `none` is a nil configuration.
pub record HttpServer (Certificate Roots : Type 0) : Type 0 where
  pub addr : String
  pub settings : Option (Settings Certificate Roots)

pub record HttpClient (Certificate Roots : Type 0) : Type 0 where
  pub settings : Option (Settings Certificate Roots)

-- A value or an error.
pub data Made (A : Type 0) : Type 0 where
  made : A → Made A
  refused : Made A

module _ {Certificate Pem Roots : Type 0} (files : Files Certificate Pem Roots) where
  abbrev pub with_certificate : Option Certificate → Made (Option (Settings Certificate Roots))
  with_certificate none = refused
  with_certificate (some c) = made (
      some (record {
        certificates = c ∷ [];
        min_version = version_tls12;
        suites = cipher_suites;
        roots = none;
      }))

  -- `CreateTLSConfig`
  unfoldable pub create_tls_config : TlsConfig → Made (Option (Settings Certificate Roots))
  create_tls_config t =
      if t.enabled then with_certificate (files.load_key_pair t.cert_file t.key_file) else made none

  abbrev pub server_with :
      String → Made (Option (Settings Certificate Roots)) → Made (HttpServer Certificate Roots)
  server_with addr refused = refused
  server_with addr (made settings) = made (record { addr = addr; settings = settings })

  -- `CreateHTTPSServer`
  unfoldable pub create_https_server : TlsConfig → String → Made (HttpServer Certificate Roots)
  unfolding create_tls_config
  create_https_server t addr =
      if t.enabled
      then server_with addr (create_tls_config t)
      else made (record { addr = addr; settings = none })

  abbrev pub client_with : Option Roots → HttpClient Certificate Roots
  client_with roots = record {
    settings =
        some
          (record { certificates = []; min_version = version_tls12; suites = []; roots = roots });
  }

  abbrev pub with_roots : Option Roots → Made (HttpClient Certificate Roots)
  with_roots none = refused
  with_roots (some r) = made (client_with (some r))

  abbrev pub with_file : Option Pem → Made (HttpClient Certificate Roots)
  with_file none = refused
  with_file (some pem) = with_roots (files.parse_roots pem)

  -- `CreateHTTPClient`
  unfoldable pub create_http_client :
      TlsConfig → (ca_cert_file : String) → Made (HttpClient Certificate Roots)
  create_http_client t ca_cert_file =
      if t.enabled
      then (if str_eq ca_cert_file ""
          then made (client_with none)
          else with_file (files.read_file ca_cert_file))
      else made (record { settings = none })

-- `GenerateSelfSignedCert`
abbrev pub generate_self_signed_cert : (cert_file key_file : String) → Made (Unit {0})
generate_self_signed_cert cert_file key_file = refused
