-- ===== src/Metrics/Series.antt =====
-- What the series of internal/metrics/metrics.go show over time.
use distributed_job_processo.Base.{
  String, ◌≡◌, refl, sym, ap, ◌∙◌, ◌≢◌, Bool, true, false, not, ◌||◌, Option, some, List, [], ◌∷◌,
  arith, eq_iff, if◌then◌else◌, get_elem?, some-eq,
}
use distributed_job_processo.Metrics.{
  Vector, Call, set_value, node_info, bool_text, update_node_info, record_leader_election,
  on_leadership,
}

-- The client of Prometheus: what a call does to the registry, and the value of a gauge's series,
-- if it has one.
pub record Registry (S V : Type 0) : Type 0 where
  pub apply : Call V → S → S
  pub value : Vector → List String → S → Option V

-- As documented: a gauge has the value that was set last, and a call touches no other series.
pub record Gauges {S V : Type 0} (registry : Registry S V) : Type 0 where
  pub value_set :
      (v : Vector) (ls : List String) (x : V) (s : S)
      → registry.value v ls
          (registry.apply (record { vector = v; values = ls; operation = set_value x }) s)
        ≡ some x
  pub value_other :
      (c : Call V) (v : Vector) (ls : List String) (s : S)
      → (c.vector ≡ v → c.values ≢ ls)
      → registry.value v ls (registry.apply c s) ≡ registry.value v ls s

abbrev pub node_series : String → Bool → List String
node_series node_id b = node_id ∷ "1.0.0" ∷ bool_text b ∷ []

abbrev same_bool : Bool → Bool → Bool
same_bool a true = a
same_bool a false = not a

abbrev pub occurs : Bool → List Bool → Bool
occurs b [] = false
occurs b (x ∷ xs) = same_bool b x || occurs b xs

third : List String → Option String
third l = get_elem? l 2

true-ne-false : bool_text true ≢ bool_text false
true-ne-false e = ground (arith, (eq_iff "true" "false").1 e)

other_series : (node_id : String) → node_series node_id true ≢ node_series node_id false
unfolding third
other_series node_id e = true-ne-false (some-eq (bool_text true) (bool_text false) (ap third e))

module _ {S V : Type 0} (registry : Registry S V) where
  unfoldable pub apply_all : List (Call V) → S → S
  apply_all [] s = s
  apply_all (c ∷ cs) s = apply_all cs (registry.apply c s)

  -- The callbacks of one leadership change after another.
  unfoldable pub leadership_changes : (one : V) → (node_id : String) → List Bool → S → S
  unfolding apply_all on_leadership
  leadership_changes one node_id [] s = s
  leadership_changes one node_id (b ∷ bs) s =
      leadership_changes one node_id bs (apply_all (on_leadership one node_id b) s)

  module _ (gauges : Gauges registry) where
    callback-value :
        (one : V) (node_id : String) (is_leader b : Bool) (s : S)
        → registry.value node_info
            (node_series node_id b)
            (apply_all (on_leadership one node_id is_leader) s)
          ≡ (if occurs b (is_leader ∷ [])
              then some one
              else registry.value node_info (node_series node_id b) s)
    unfolding apply_all on_leadership update_node_info record_leader_election
    callback-value one node_id true true s = gauges.value_set node_info _ one _
    callback-value one node_id false false s = gauges.value_set node_info _ one _
    callback-value one node_id true false s =
        gauges.value_other _ node_info _ _ (λ e f. other_series node_id f)
        ∙ gauges.value_other _ node_info _ _ (λ e. cc)
    callback-value one node_id false true s =
        gauges.value_other _ node_info _ _ (λ e f. other_series node_id (sym f))

    -- Whatever leadership changes a node goes through, the series of `node_info` that says
    -- whether it leads is 1 exactly if the node has ever been told so, or was 1 before: becoming
    -- the leader or losing the lead never takes the other series back.
    pub leadership_changes-value :
        (one : V) (node_id : String) (b : Bool) (changes : List Bool) (s : S)
        → registry.value node_info
            (node_series node_id b)
            (leadership_changes one node_id changes s)
          ≡ (if occurs b changes
              then some one
              else registry.value node_info (node_series node_id b) s)
    unfolding leadership_changes
    leadership_changes-value one node_id b [] s = refl
    leadership_changes-value one node_id b (x ∷ changes) s =
        leadership_changes-value one node_id b changes _
        ∙ ap (λ o. if occurs b changes then some one else o) (callback-value one node_id x b s)
        ∙ either (same_bool b x) (occurs b changes)
      where
        either :
            (p q : Bool)
            → (if q
                then some one
                else if p || false
                then some one
                else registry.value node_info (node_series node_id b) s)
              ≡ (if p || q then some one else registry.value node_info (node_series node_id b) s)
        either true true = refl
        either true false = refl
        either false true = refl
        either false false = refl
