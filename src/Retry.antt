-- ===== src/Retry.antt =====
-- internal/retry/policies.go. Durations and the attempt are 64-bit patterns; float64 is a
-- parameter.
use distributed_job_processo.Base.{
  ℕ, suc, ◌+◌, String, ◌≡◌, ap, Bool, true, false, not, arith, str_eq, ◌==◌, if◌then◌else◌, wrap,
  minus_one, slt,
}

-- The operations on float64 that the code uses. `to_int` is the conversion to int64, which Go
-- leaves to the implementation when the value does not fit.
pub record Floats (F : Type 0) : Type 0 where
  pub of_int : ℕ → F
  pub to_int : F → ℕ
  pub add : F → F → F
  pub sub : F → F → F
  pub mul : F → F → F
  pub pow : F → F → F
  pub is_negative : F → Bool
  pub is_positive : F → Bool
  pub one : F
  pub two : F
  pub tenth : F

pub data Policy (F : Type 0) : Type 0 where
  fixed : (delay : ℕ) → Policy F
  exponential : (base_delay max_delay : ℕ) → (multiplier : F) → Policy F
  jitter : Policy F → (jitter_factor : F) → Policy F

module _ {F : Type 0} (floats : Floats F) where
  open floats use {of_int, to_int, add, sub, mul, pow, is_negative, is_positive, one, two, tenth}

  abbrev pub capped : (max_delay delay : ℕ) → ℕ
  capped max_delay delay = if slt max_delay delay then max_delay else delay

  abbrev pub spread : (jitter_factor random : F) → (base : ℕ) → F
  spread jitter_factor random base =
      add (of_int base) (mul (mul (of_int base) jitter_factor) (sub (mul random two) one))

  -- `random` is `rand.Float64()`, once for each policy with jitter, the innermost last.
  unfoldable pub next_delay : Policy F → (random : ℕ → F) → (attempt : ℕ) → ℕ
  next_delay (fixed delay) random attempt = delay
  next_delay (exponential base_delay max_delay multiplier) random attempt =
      capped max_delay
        (to_int (mul (of_int base_delay) (pow multiplier (of_int (wrap (attempt + minus_one))))))
  next_delay (jitter policy jitter_factor) random attempt =
      let base = next_delay policy (λ i. random (suc i)) attempt in
      let final = spread jitter_factor (random 0) base in
      to_int (if is_negative final then mul (of_int base) tenth else final)

  abbrev pub base_policy :
      (policy_type : String) (base_delay max_delay : ℕ) (multiplier : F) → Policy F
  base_policy policy_type base_delay max_delay multiplier =
      if str_eq policy_type "fixed"
      then fixed base_delay
      else if str_eq policy_type "exponential"
      then exponential base_delay max_delay multiplier
      else exponential base_delay max_delay multiplier

  unfoldable pub create_policy :
      (policy_type : String) (base_delay max_delay : ℕ) (multiplier jitter_factor : F) → Policy F
  create_policy policy_type base_delay max_delay multiplier jitter_factor =
      let base = base_policy policy_type base_delay max_delay multiplier in
      if is_positive jitter_factor then jitter base jitter_factor else base

  capped-max : (max_delay delay : ℕ) → slt max_delay (capped max_delay delay) ≡ false
  capped-max max_delay delay = ground arith

  abbrev chosen : (f e : Bool) (base_delay max_delay : ℕ) (multiplier : F) → Policy F
  chosen f e base_delay max_delay multiplier =
      if f
      then fixed base_delay
      else if e
      then exponential base_delay max_delay multiplier
      else exponential base_delay max_delay multiplier

  chosen-bound :
      (f e : Bool) (base_delay max_delay attempt : ℕ) (multiplier : F) (random : ℕ → F)
      → let delay = next_delay (chosen f e base_delay max_delay multiplier) random attempt in
        (if f then delay == base_delay else not (slt max_delay delay)) ≡ true
  unfolding next_delay
  chosen-bound true e base_delay max_delay attempt multiplier random = ground arith
  chosen-bound false true base_delay max_delay attempt multiplier random =
      ap not (capped-max max_delay _)
  chosen-bound false false base_delay max_delay attempt multiplier random =
      ap not (capped-max max_delay _)

  -- Without jitter a policy that is not the fixed one never waits longer than the maximum,
  -- whatever the multiplier, the attempt and the conversions from float64; the fixed one ignores
  -- the maximum.
  pub create_policy-bound :
      (policy_type : String) (base_delay max_delay attempt : ℕ) (multiplier jitter_factor : F)
      (random : ℕ → F)
      → is_positive jitter_factor ≡ false
      → let policy = create_policy policy_type base_delay max_delay multiplier jitter_factor in
        (if str_eq policy_type "fixed"
          then next_delay policy random attempt == base_delay
          else not (slt max_delay (next_delay policy random attempt)))
        ≡ true
  unfolding create_policy next_delay
  create_policy-bound policy_type base_delay max_delay attempt multiplier jitter_factor random h =
      rw h (
        chosen-bound (str_eq policy_type "fixed") (str_eq policy_type "exponential") base_delay
          max_delay attempt multiplier random)
