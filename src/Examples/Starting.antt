-- ===== src/Examples/Starting.antt =====
-- Starting a server, and the delays of its policies.
use distributed_job_processo.Base.{
  ℕ, ◌+◌, ◌-◌, ◌*◌, ◌^◌, String, ◌≡◌, true, false, not, ◌&&◌, ◌||◌, none, str_eq, ltb, leb, slt,
  if◌then◌else◌,
}
use distributed_job_processo.Election.Bully.Starting.{bytes}
use distributed_job_processo.Config.{Parsers, Environment, load, get_env}
use distributed_job_processo.Retry.{Floats}
use distributed_job_processo.Election.Factory.{contains, get_supported_algorithms}
use distributed_job_processo.Server.{new, is_started, new-supported}

-- Numbers without fractions or signs.
abbrev pub whole : Floats ℕ
whole = record {
  of_int = λ n. n;
  to_int = λ n. n;
  add = λ a b. a + b;
  sub = λ a b. a - b;
  mul = λ a b. a * b;
  pow = λ a b. a ^ b;
  is_negative = λ a. false;
  is_positive = λ a. ltb 0 a;
  one = 1;
  two = 2;
  tenth = 0;
}

abbrev pub no_parsers : Parsers ℕ
no_parsers = record {
  atoi = λ s. none;
  parse_bool = λ s. none;
  parse_float = λ s. none;
  parse_duration = λ s. none;
  two = 2;
  tenth = 0;
}

abbrev pub plain_environment : Environment
plain_environment key = if str_eq key "NODE_ID" then "node-7" else ""

abbrev pub name : String → ℕ → String
name node index = node

new-supported_example : is_started (new whole name true (load no_parsers plain_environment)) ≡ (
    true
    && (not (slt (load no_parsers plain_environment).server.worker_count 0)
        && leb (load no_parsers plain_environment).server.worker_count (2 ^ 45))
    && contains get_supported_algorithms (get_env plain_environment "ELECTION_ALGORITHM" "bully")
    && (not (str_eq (get_env plain_environment "ELECTION_ALGORITHM" "bully") "bully")
        || leb 5 (bytes (get_env plain_environment "NODE_ID" "node-1"))))
new-supported_example = new-supported whole name no_parsers plain_environment true
