-- ===== src/Programs/Client.antt =====
-- The client of examples/client_example.go. The transport of net/http is a parameter; the state
-- is that of the servers behind it. Errors are `none`, their texts are left out.
pub mod RoundTrip
use distributed_job_processo.Base.{
  ℕ, zero, suc, ◌+◌, ◌-◌, ◌*◌, ◌/◌, ◌%◌, ◌^◌, ◌≤◌, ◌<◌, String, ◌≡◌, refl, sym, ap, ◌∙◌, subst, ◌≢◌,
  ◌↔◌, ◌⊎◌, inl, inr, Bool, true, false, not, ◌&&◌, ◌||◌, Option, none, some, List, [], ◌∷◌, ◌++◌,
  map, arith, str_eq, eq_iff, ltb, leb, ◌==◌, if◌then◌else◌, Bool-cases, Option-cases, str_eq_self,
  str_eq_of_ne, length, get_elem?, filter, Member, All, Any, wrap, minus_one, slt, inc, negate,
  slt-eq-ltb, some-eq,
}
use Prim.Native.String.{◌++◌ as append}
use distributed_job_processo.Job.{Job, priority_normal, priority_high}
use distributed_job_processo.Queue.Server.{Codec}

-- `Post` and `Get` of http.Client: no answer, or a status with a body.
pub record Http (W B : Type 0) : Type 0 where
  pub post : (url : String) → B → W → Option (ℕ × B) × W
  pub fetch : (url : String) → W → Option (ℕ × B) × W

abbrev pub base_url : String
base_url = "http://localhost:8080/api/v1"

-- What `main` prints, without the lines that do not depend on the answers.
pub data Line (T : Type 0) : Type 0 where
  email_failed image_failed lookup_failed stats_failed : Line T
  created_email created_image : (id : ℕ) → Line T
  email_status : String → Line T
  system_stats : T → Line T

module _ {W B T : Type 0} (http : Http W B) (json : Codec B) (decode : B → Option T)
    (base : String) where
  -- After the test of the status: the body, if it has the one that is wanted.
  abbrev pub body_of : (wanted : ℕ) → Option (ℕ × B) → Option Job
  body_of wanted none = none
  body_of wanted (some (status, body)) = if status == wanted then json.unmarshal body else none

  abbrev pub post_data : Option B → W → Option Job × W
  post_data none w = (none, w)
  post_data (some d) w =
      let (answer, w') = http.post (append base "/jobs") d w in (body_of 201 answer, w')

  -- `Client.CreateJob`
  unfoldable pub create_job : Job → W → Option Job × W
  create_job j w = post_data (json.marshal j) w

  -- `Client.GetJob`
  unfoldable pub get_job : String → W → Option Job × W
  get_job id w =
      let (answer, w') = http.fetch (append (append base "/jobs/") id) w in (body_of 200 answer, w')

  -- The body of `GetStats`, whatever the status is.
  abbrev pub stats_of : Option (ℕ × B) → Option T
  stats_of none = none
  stats_of (some (status, body)) = decode body

  -- `Client.GetStats`
  unfoldable pub get_stats : W → Option T × W
  get_stats w = let (answer, w') = http.fetch (append base "/stats") w in (stats_of answer, w')

  abbrev pub status_line : Option Job → Line T
  status_line none = lookup_failed
  status_line (some j) = email_status j.status

  abbrev pub stats_line : Option T → Line T
  stats_line none = stats_failed
  stats_line (some t) = system_stats t

  -- `main` from the lookup on
  unfoldable pub show_both : String → W → List (Line T) × W
  unfolding get_job get_stats
  show_both id w =
      let (j, w₁) = get_job id w in
      let (t, w₂) = get_stats w₁ in (status_line j ∷ stats_line t ∷ [], w₂)

  -- `hex` is `ObjectID.Hex`.
  abbrev pub after_image : (hex : ℕ → String) → (email : Job) → Option Job × W → List (Line T) × W
  after_image hex email (none, w) = (created_email email.id ∷ image_failed ∷ [], w)
  after_image hex email (some image, w) =
      let (lines, w') = show_both (hex email.id) w in
      (created_email email.id ∷ created_image image.id ∷ lines, w')

  abbrev pub after_email :
      (hex : ℕ → String) → (image_job : Job) → Option Job × W → List (Line T) × W
  after_email hex image_job (none, w) = (email_failed ∷ [], w)
  after_email hex image_job (some email, w) = after_image hex email (create_job image_job w)

  -- `main`
  unfoldable pub main : (hex : ℕ → String) → (email_job image_job : Job) → W → List (Line T) × W
  unfolding create_job show_both
  main hex email_job image_job w = after_email hex image_job (create_job email_job w)

-- The jobs that `main` builds, from the payloads' texts; the other fields have their zero values.
abbrev pub client_job : (kind payload : String) → (priority max_retries : ℕ) → Job
client_job kind payload priority max_retries = record {
  id = 0;
  type = kind;
  payload = payload;
  status = "";
  priority = priority;
  created_at = 0;
  updated_at = 0;
  scheduled_at = 0;
  started_at = none;
  completed_at = none;
  retry_count = 0;
  max_retries = max_retries;
  worker_id = "";
  error = "";
}

abbrev pub email_job : (payload : String) → Job
email_job payload = client_job "email" payload priority_normal 3

abbrev pub image_job : (payload : String) → Job
image_job payload = client_job "image_processing" payload priority_high 2
