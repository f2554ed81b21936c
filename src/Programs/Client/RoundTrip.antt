-- ===== src/Programs/Client/RoundTrip.antt =====
-- A job from the client of examples/client_example.go through the API and back.
use distributed_job_processo.Base.{
  ℕ, String, ◌≡◌, refl, ap, ◌∙◌, subst, Bool, true, false, Option, none, some, arith, if◌then◌else◌,
}
use Prim.Native.String.{◌++◌ as append}
use distributed_job_processo.Job.{Job}
use distributed_job_processo.Queue.Server.{Codec, ReadsBack, Redis}
use distributed_job_processo.Queue.Defs.{push}
use distributed_job_processo.Storage.Jobs.{Collection}
use distributed_job_processo.Storage.Documents.{Documented, Responds, stored}
use distributed_job_processo.Worker.Pool.{World}
use distributed_job_processo.Server.Jobs.{
  Response, failed, answered, handle_create_job, handle_get_job,
}
use distributed_job_processo.Server.Lifecycle.{accepted, Fresh, handle_get_job-create}
use distributed_job_processo.Programs.Client.{Http, create_job, get_job, body_of, post_data}

module _ {S D M B T : Type 0} (codec : Codec D) (redis : Redis S D) (jobs : Collection M)
    (effects : Documented jobs) (responds : Responds jobs effects.documents)
    (from_hex : String → Option ℕ) (http : Http (World S M) B) (json : Codec B)
    (reads_back : ReadsBack json) (decode : B → Option T) (base : String) (error_body : B) where
  -- `c.JSON`: the body of an answer, which must be one that can be written.
  abbrev pub Carries : Response Job → ℕ × B → Type 0
  Carries (failed status) r = r ≡ (status, error_body)
  Carries (answered status j) (s, d) = (s ≡ status) × (json.marshal j ≡ some d)

  -- The server has answered a POST of these data at these times.
  abbrev pub Posted : (max_retries new_id now later : ℕ) → B → World S M → ℕ × B → Type 0
  Posted max_retries new_id now later d w r =
      let (reply, w') =
        handle_create_job codec redis jobs max_retries new_id now later (json.unmarshal d) w in
      (http.post (append base "/jobs") d w ≡ (some r, w')) × Carries reply r

  abbrev pub Fetched : String → World S M → ℕ × B → Type 0
  Fetched id w r =
      (http.fetch (append (append base "/jobs/") id) w ≡ (some r, w))
      × Carries (handle_get_job jobs from_hex id w) r

  abbrev created_reply : Bool → Job → Response Job
  created_reply pushed i = if pushed then answered 201 i else failed 500

  carried_job :
      (status : ℕ) (j : Job) (r : ℕ × B)
      → Carries (answered status j) r
      → body_of http json decode base status (some r) ≡ some j
  carried_job status j (s, d) (same, written) =
      rw same (ground (arith, reads_back.read_back j d written))

  carried_reply :
      (pushed : Bool) (i : Job) (r : ℕ × B)
      → Carries (created_reply pushed i) r
      → body_of http json decode base 201 (some r) ≡ (if pushed then some i else none)
  carried_reply true i r h = carried_job 201 i r h
  carried_reply false i r h = rw h refl

  -- The client's round trip: when the server has answered both calls, the new id is not taken and
  -- the database answers, `CreateJob` gives the job as the server accepted it, or an error if the
  -- push failed, and `GetJob` with the hexadecimal id gives the job as it was stored, in either
  -- case.
  pub get_job-create_job :
      (max_retries new_id now later : ℕ) (j : Job) (d : B) (w : World S M) (id : String)
      (posted fetched : ℕ × B)
      → Fresh effects max_retries new_id now j w
      → let i = accepted max_retries new_id now j in
        from_hex id ≡ some i.id
        → json.marshal j ≡ some d
        → Posted max_retries new_id now later d w posted
        → let (created, w') = create_job http json decode base j w in
          Fetched id w' fetched
          → (created ≡ (if (push codec redis later i w.redis).1 then some i else none))
            × ((get_job http json decode base id w').0 ≡ some (stored i))
  unfolding create_job get_job
  get_job-create_job max_retries new_id now later j d w id posted fetched fresh hex written sent
        asked =
      let i = accepted max_retries new_id now j in
      let h = handle_create_job codec redis jobs max_retries new_id now later (some j) w in
      let (reply, stays) =
        handle_get_job-create codec redis jobs effects responds from_hex max_retries new_id now
          later j w id fresh hex in
      let (answer, carries) : (http.post (append base "/jobs") d w ≡ (some posted, h.1))
          × Carries h.0 posted =
        subst
          (λ o.
            let r = handle_create_job codec redis jobs max_retries new_id now later o w in
            (http.post (append base "/jobs") d w ≡ (some posted, r.1)) × Carries r.0 posted)
          (reads_back.read_back j d written) sent in
      let called : create_job http json decode base j w
          ≡ (body_of http json decode base 201 (some posted), h.1) =
        ap (λ o. post_data http json decode base o w) written
        ∙ ap (λ (a : Option (ℕ × B) × World S M). (body_of http json decode base 201 a.0, a.1))
            answer in
      (
        ap (λ (r : Option Job × World S M). r.0) called
            ∙ carried_reply _ i posted (subst (λ r. Carries r posted) reply carries),
        ap (λ (a : Option (ℕ × B) × World S M). body_of http json decode base 200 a.0) asked.0
            ∙ carried_job 200 (stored i) fetched (
                subst (λ r. Carries r fetched)
                  (ap (λ (r : Option Job × World S M). handle_get_job jobs from_hex id r.1) called
                    ∙ stays)
                  asked.1),
      )
