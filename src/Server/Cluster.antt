-- ===== src/Server/Cluster.antt =====
-- The cluster that `getClusterStatus` shows (internal/server/election_info.go).
use distributed_job_processo.Base.{
  ℕ, suc, ◌+◌, String, ◌≡◌, refl, sym, ap, ◌∙◌, subst, inl, inr, Bool, true, false, Option, none,
  some, List, [], ◌∷◌, arith, leb, if◌then◌else◌, Option-cases, length, filter, wrap, inc,
}
use distributed_job_processo.Storage.Nodes.{NodeInfo, Nodes, Effects, get_nodes}
use distributed_job_processo.Server.Jobs.{Response, failed, answered}

pub record ClusterBody : Type 0 where
  pub cluster_size : ℕ
  pub leader : Option NodeInfo
  pub election_algorithm : String
  pub nodes : List NodeInfo

-- The loop of `getClusterStatus`: `leaderNode` and `aliveNodes`.
unfoldable pub scan_nodes : List NodeInfo → Option NodeInfo × ℕ → Option NodeInfo × ℕ
scan_nodes [] s = s
scan_nodes (n ∷ ns) (leader, alive) =
    scan_nodes ns (if n.is_leader then some n else leader, inc alive)

abbrev pub cluster_of : String → Option (List NodeInfo) → Response ClusterBody
cluster_of algorithm none = failed 500
cluster_of algorithm (some nodes) =
    let (leader, alive) = scan_nodes nodes (none, 0) in
    answered 200 (record {
      cluster_size = alive;
      leader = leader;
      election_algorithm = algorithm;
      nodes = nodes;
    })

unfoldable pub handle_get_cluster_status :
    {S : Type 0} → Nodes S → (algorithm : String) → (now : ℕ) → S → Response ClusterBody
unfolding get_nodes scan_nodes
handle_get_cluster_status nodes algorithm now s = cluster_of algorithm (get_nodes nodes now s)

-- The last element
abbrev pub last : List NodeInfo → Option NodeInfo
last [] = none
last (n ∷ []) = some n
last (n ∷ m ∷ ns) = last (m ∷ ns)

abbrev pub last_or : Option NodeInfo → List NodeInfo → Option NodeInfo
last_or o [] = o
last_or o (n ∷ ns) = last (n ∷ ns)

last_or-cons :
    (o : Option NodeInfo) (n : NodeInfo) (ns : List NodeInfo)
    → last_or (some n) ns ≡ last_or o (n ∷ ns)
last_or-cons o n [] = refl
last_or-cons o n (m ∷ ns) = refl

scan_nodes-eq :
    (ns : List NodeInfo) (o : Option NodeInfo) (alive : ℕ)
    → scan_nodes ns (o, wrap alive)
      ≡ (last_or o (filter (λ n. n.is_leader) ns), wrap (alive + length ns))
unfolding scan_nodes
scan_nodes-eq [] o alive = ap (λ k. (o, k)) (omega arith)
scan_nodes-eq (n ∷ ns) o alive = by_leader n.is_leader λ o'. scan_nodes-eq ns o' (suc alive)
  where
    leaders : List NodeInfo
    leaders = filter (λ n. n.is_leader) ns

    counted :
        (o' : Option NodeInfo)
        → scan_nodes ns (o', wrap (suc alive)) ≡ (last_or o' leaders, wrap (suc alive + length ns))
        → scan_nodes ns (o', inc (wrap alive))
          ≡ (last_or o' leaders, wrap (alive + suc (length ns)))
    counted o' rest =
        ap (λ k. scan_nodes ns (o', k)) (omega arith)
        ∙ rest
        ∙ ap (λ k. (last_or o' leaders, k)) (omega arith)

    by_leader :
        (b : Bool)
        → ((o' : Option NodeInfo)
            → scan_nodes ns (o', wrap (suc alive))
              ≡ (last_or o' leaders, wrap (suc alive + length ns)))
        → scan_nodes ns (if b then some n else o, inc (wrap alive))
          ≡ (last_or o (if b then n ∷ leaders else leaders), wrap (alive + suc (length ns)))
    by_leader true rest =
        counted (some n) (rest (some n))
        ∙ ap (λ l. (l, wrap (alive + suc (length ns)))) (last_or-cons o n leaders)
    by_leader false rest = counted o (rest o)

last_or-none : (ns : List NodeInfo) → last_or none ns ≡ last ns
last_or-none [] = refl
last_or-none (n ∷ ns) = refl

answered-eq : {A : Type 0} (status : ℕ) (a b : A) → answered status a ≡ answered status b → a ≡ b
answered-eq status a b e = cc

cluster_of-failed :
    (algorithm : String) (body : ClusterBody) → cluster_of algorithm none ≡ answered 200 body → ⊥
cluster_of-failed algorithm body e = cc

-- The cluster that `getClusterStatus` shows: the nodes that were seen in the last five minutes,
-- their number (as an int), and of those that say they are the leader the last one, if there is
-- one.
pub handle_get_cluster_status-last :
    {S : Type 0} (nodes : Nodes S) (effects : Effects nodes) (algorithm : String) (now : ℕ) (s : S)
    (body : ClusterBody)
    → handle_get_cluster_status nodes algorithm now s ≡ answered 200 body
    → (body.nodes ≡ filter (λ n. leb now (n.last_seen + 300_000)) (nodes.documents s))
      × (body.cluster_size ≡ wrap (length body.nodes))
      × (body.leader ≡ last (filter (λ n. n.is_leader) body.nodes))
unfolding handle_get_cluster_status get_nodes
handle_get_cluster_status-last nodes effects algorithm now s body h =
    elim (Option-cases (get_nodes nodes now s)) [
      | inl e ↦ absurd (cluster_of-failed algorithm body (sym (ap (cluster_of algorithm) e) ∙ h))
      | inr (ns, e) ↦
          let counted = scan_nodes-eq ns none 0 in
          let shown = answered-eq 200 _ body (sym (ap (cluster_of algorithm) e) ∙ h) in
          subst
            (λ (b : ClusterBody).
              (b.nodes ≡ filter (λ n. leb now (n.last_seen + 300_000)) (nodes.documents s))
              × (b.cluster_size ≡ wrap (length b.nodes))
              × (b.leader ≡ last (filter (λ n. n.is_leader) b.nodes)))
            shown
            (
              effects.find_effect _ s ns e,
              ap (λ r. r.1) counted ∙ ap wrap (omega arith),
              ap (λ r. r.0) counted ∙ last_or-none (filter (λ n. n.is_leader) ns),
            )
    ]
