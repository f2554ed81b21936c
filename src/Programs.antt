-- ===== src/Programs.antt =====
-- The programs around the server: cmd/server/main.go, which the Dockerfile builds,
-- examples/simple_processor.go with its own processors, and examples/client_example.go.
pub mod Processors
pub mod Client
pub mod Runs
pub mod Exit
use distributed_job_processo.Base.{
  ℕ, zero, suc, ◌+◌, ◌-◌, ◌*◌, ◌/◌, ◌%◌, ◌^◌, ◌≤◌, ◌<◌, String, ◌≡◌, refl, sym, ap, ◌∙◌, subst, ◌≢◌,
  ◌↔◌, ◌⊎◌, inl, inr, Bool, true, false, not, ◌&&◌, ◌||◌, Option, none, some, List, [], ◌∷◌, ◌++◌,
  map, arith, str_eq, eq_iff, ltb, leb, ◌==◌, if◌then◌else◌, Bool-cases, Option-cases, str_eq_self,
  str_eq_of_ne, length, get_elem?, filter, Member, All, Any, wrap, minus_one, slt, inc, negate,
  slt-eq-ltb, some-eq,
}
use distributed_job_processo.Job.{Job, register}
use distributed_job_processo.Worker.Pool.{Processor}

-- The registries of the server and of its pool, which `RegisterProcessor` of
-- internal/server/server.go both fills; only the pool looks processors up.
pub record Registries : Type 0 where
  pub pool : List (String × Processor)
  pub server : List (String × Processor)

abbrev pub no_processors : Registries
no_processors = record { pool = []; server = [] }

-- The type is what the processor's `Type` returns.
unfoldable pub register_processor : String → Processor → Registries → Registries
unfolding register
register_processor kind p r = record {
  pool = register kind p r.pool;
  server = register kind p r.server;
}

-- The type assertion `j.Payload[key].(string)`: the text under a key, `none` if it is missing or
-- not a text.
abbrev pub Payloads : Type 0
Payloads = (payload key : String) → Option String

module _ (text_of : Payloads) where
  -- `recipient, ok := j.Payload[key].(string); if !ok { return … }`, then the rest.
  abbrev pub with_text : Option String → (message : String) → Option String → Option String
  with_text none message rest = some message
  with_text (some t) message rest = rest

  -- `EmailProcessor.Process`; printing and sleeping leave the job.
  unfoldable pub process_email : Processor
  process_email j = (
    j,
    with_text (text_of j.payload "recipient") "recipient not found in job payload" (
        with_text (text_of j.payload "subject") "subject not found in job payload"
          (with_text (text_of j.payload "body") "body not found in job payload" none)),
  )

  -- `ImageProcessor.Process`; the operation has a default and is only printed.
  unfoldable pub process_image : Processor
  process_image j =
      (j, with_text (text_of j.payload "image_url") "image_url not found in job payload" none)

  -- The registrations of `main` of examples/simple_processor.go.
  unfoldable pub example_registries : Registries
  unfolding register_processor process_email process_image
  example_registries =
      register_processor "image_processing" process_image
        (register_processor "email" process_email no_processors)

-- `main` of cmd/server/main.go registers no processor.
unfoldable pub service_registries : Registries
service_registries = no_processors
