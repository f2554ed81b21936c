-- ===== src/Programs/Processors.antt =====
-- The processors of examples/simple_processor.go: when they succeed, and what they report.
use distributed_job_processo.Base.{
  String, ◌≡◌, refl, sym, ap, ◌∙◌, Bool, true, false, Option, none, some, List, [], ◌∷◌, str_eq,
  if◌then◌else◌, some-eq,
}
use mathlib.Core.Option
use distributed_job_processo.Base.{some-eq}
use Prim.Native.String.{◌++◌ as append}
use distributed_job_processo.Job.{Job, get, register}
use distributed_job_processo.Worker.Pool.{Processor}
use distributed_job_processo.Programs.{
  Payloads, with_text, process_email, process_image, example_registries, register_processor,
}

-- What the job types need: the keys under which the payload has a text.
abbrev pub required : String → List String
required kind =
    if str_eq "image_processing" kind
    then "image_url" ∷ []
    else if str_eq "email" kind
    then "recipient" ∷ "subject" ∷ "body" ∷ []
    else []

module _ (text_of : Payloads) where
  -- The first of some keys that the payload has no text under.
  abbrev pub first_missing : String → List String → Option String
  first_missing payload [] = none
  first_missing payload (k ∷ ks) =
      let rest = first_missing payload ks in
      elim (text_of payload k) [ none ↦ some k | some t ↦ rest ]

  abbrev pub not_found : String → String
  not_found key = append key " not found in job payload"

  with_text-map :
      (o : Option String) (message : String) (rest : Option String)
      → with_text text_of o message rest ≡ elim o [ none ↦ some message | some t ↦ rest ]
  with_text-map none message rest = refl
  with_text-map (some t) message rest = refl

  email_lem :
      (j : Job)
      → process_email text_of j ≡ (
        j,
        Option.map not_found (first_missing j.payload ("recipient" ∷ "subject" ∷ "body" ∷ [])),
      )
  unfolding process_email
  email_lem j =
      ap (λ o. (j, o))
        (by_texts (text_of j.payload "recipient") (text_of j.payload "subject")
          (text_of j.payload "body"))
    where
      by_texts :
          (r s b : Option String)
          → with_text text_of r "recipient not found in job payload" (
              with_text text_of s "subject not found in job payload"
                (with_text text_of b "body not found in job payload" none))
            ≡ Option.map not_found (elim r [
              | none ↦ some "recipient"
              | some t ↦ elim s [
                | none ↦ some "subject"
                | some t ↦ elim b [ none ↦ some "body" | some t ↦ none ]
              ]
            ])
      by_texts none s b = refl
      by_texts (some x) none b = refl
      by_texts (some x) (some y) none = refl
      by_texts (some x) (some y) (some z) = refl

  image_lem :
      (j : Job)
      → process_image text_of j
        ≡ (j, Option.map not_found (first_missing j.payload ("image_url" ∷ [])))
  unfolding process_image
  image_lem j = ap (λ o. (j, o)) (by_text (text_of j.payload "image_url"))
    where
      by_text :
          (o : Option String)
          → with_text text_of o "image_url not found in job payload" none
            ≡ Option.map not_found (elim o [ none ↦ some "image_url" | some t ↦ none ])
      by_text none = refl
      by_text (some t) = refl

  -- The processor that the example has for the type of a job leaves the job as it is and reports
  -- the first key that the type needs and the payload has no text under, if there is one.
  pub process-first_missing :
      (j : Job) (p : Processor)
      → get (example_registries text_of).pool j.type ≡ some p
      → p j ≡ (j, Option.map not_found (first_missing j.payload (required j.type)))
  unfolding example_registries register_processor register get
  process-first_missing j p known =
      by_kind (str_eq "image_processing" j.type) (str_eq "email" j.type) known
    where
      by_kind :
          (a b : Bool)
          → (if a
              then some (process_image text_of)
              else if b
              then some (process_email text_of)
              else none)
            ≡ some p
          → p j ≡ (
            j,
            Option.map not_found (
                first_missing j.payload (
                  if a
                  then "image_url" ∷ []
                  else if b
                  then "recipient" ∷ "subject" ∷ "body" ∷ []
                  else [])),
          )
      by_kind true b h =
          ap (λ (q : Processor). q j) (sym (some-eq (process_image text_of) p h)) ∙ image_lem j
      by_kind false true h =
          ap (λ (q : Processor). q j) (sym (some-eq (process_email text_of) p h)) ∙ email_lem j
      by_kind false false h = cc
