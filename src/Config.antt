-- ===== src/Config.antt =====
-- internal/config/config.go: the configuration from the environment. The parsers of strconv and
-- of time are parameters; durations are in nanoseconds, `F` stands for float64.
use distributed_job_processo.Base.{
  ℕ, ◌*◌, String, Bool, true, false, Option, none, some, str_eq, if◌then◌else◌,
}

pub record ServerConfig : Type 0 where
  pub port : String
  pub host : String
  pub worker_count : ℕ
  pub node_id : String

pub record MongoConfig : Type 0 where
  pub uri : String
  pub database : String
  pub timeout : ℕ

pub record RedisConfig : Type 0 where
  pub addr : String
  pub password : String
  pub db : ℕ

pub record ElectionConfig : Type 0 where
  pub algorithm : String
  pub timeout : ℕ
  pub interval : ℕ

pub record RetryConfig (F : Type 0) : Type 0 where
  pub policy : String
  pub max_retries : ℕ
  pub base_delay : ℕ
  pub max_delay : ℕ
  pub multiplier : F
  pub jitter_factor : F

pub record MetricsConfig : Type 0 where
  pub enabled : Bool
  pub port : String

pub record SecurityConfig : Type 0 where
  pub tls_enabled : Bool
  pub cert_file : String
  pub key_file : String
  pub auth_enabled : Bool
  pub jwt_secret : String

pub record Config (F : Type 0) : Type 0 where
  pub server : ServerConfig
  pub mongo : MongoConfig
  pub redis : RedisConfig
  pub election : ElectionConfig
  pub strategy : String
  pub retry : RetryConfig F
  pub metrics : MetricsConfig
  pub security : SecurityConfig

-- strconv.Atoi, ParseBool and ParseFloat, time.ParseDuration: `none` is an error. The two default
-- factors are float64 constants.
pub record Parsers (F : Type 0) : Type 0 where
  pub atoi : String → Option ℕ
  pub parse_bool : String → Option Bool
  pub parse_float : String → Option F
  pub parse_duration : String → Option ℕ
  pub two : F
  pub tenth : F

-- `os.Getenv`: the empty text for a variable that is not set.
abbrev pub Environment : Type 0
Environment = String → String

abbrev pub or_default {ℓ} : {A : Type ℓ} → Option A → A → A
or_default none default = default
or_default (some a) default = a

unfoldable pub get_env : Environment → (key default : String) → String
get_env env key default = if str_eq (env key) "" then default else env key

-- The common body of `getEnvInt`, `getEnvBool`, `getEnvFloat` and `getEnvDuration`.
unfoldable pub get_env_as {ℓ} :
    {A : Type ℓ} → (String → Option A) → Environment → (key : String) → (default : A) → A
get_env_as parse env key default =
    if str_eq (env key) "" then default else or_default (parse (env key)) default

abbrev pub second : ℕ
second = 1_000_000_000

unfoldable pub load : {F : Type 0} → Parsers F → Environment → Config F
unfolding get_env get_env_as
load parsers env = record {
  server = record {
    port = get_env env "SERVER_PORT" "8080";
    host = get_env env "SERVER_HOST" "0.0.0.0";
    worker_count = get_env_as parsers.atoi env "WORKER_COUNT" 10;
    node_id = get_env env "NODE_ID" "node-1";
  };
  mongo = record {
    uri = get_env env "MONGODB_URI" "mongodb://localhost:27017";
    database = get_env env "MONGODB_DATABASE" "jobprocessor";
    timeout = get_env_as parsers.parse_duration env "MONGODB_TIMEOUT" (30 * second);
  };
  redis = record {
    addr = get_env env "REDIS_ADDR" "localhost:6379";
    password = get_env env "REDIS_PASSWORD" "";
    db = get_env_as parsers.atoi env "REDIS_DB" 0;
  };
  election = record {
    algorithm = get_env env "ELECTION_ALGORITHM" "bully";
    timeout = get_env_as parsers.parse_duration env "ELECTION_TIMEOUT" (10 * second);
    interval = get_env_as parsers.parse_duration env "ELECTION_INTERVAL" (30 * second);
  };
  strategy = get_env env "LOAD_BALANCER_STRATEGY" "round_robin";
  retry = record {
    policy = get_env env "RETRY_POLICY" "exponential";
    max_retries = get_env_as parsers.atoi env "MAX_RETRIES" 3;
    base_delay = get_env_as parsers.parse_duration env "RETRY_BASE_DELAY" (1 * second);
    max_delay = get_env_as parsers.parse_duration env "RETRY_MAX_DELAY" (60 * second);
    multiplier = get_env_as parsers.parse_float env "RETRY_MULTIPLIER" parsers.two;
    jitter_factor = get_env_as parsers.parse_float env "RETRY_JITTER_FACTOR" parsers.tenth;
  };
  metrics = record {
    enabled = get_env_as parsers.parse_bool env "METRICS_ENABLED" true;
    port = get_env env "METRICS_PORT" "9090";
  };
  security = record {
    tls_enabled = get_env_as parsers.parse_bool env "TLS_ENABLED" false;
    cert_file = get_env env "TLS_CERT_FILE" "";
    key_file = get_env env "TLS_KEY_FILE" "";
    auth_enabled = get_env_as parsers.parse_bool env "AUTH_ENABLED" false;
    jwt_secret = get_env env "JWT_SECRET" "your-secret-key";
  };
}
