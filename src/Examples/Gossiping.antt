-- ===== src/Examples/Gossiping.antt =====
-- A table of three members.
use distributed_job_processo.Base.{ℕ, String, refl, false, some, List, [], ◌∷◌, arith}
use distributed_job_processo.Election.Gossip.Table.{
  GossipMember, alive, Gossip, find_member, merge_member_list,
}
use distributed_job_processo.Election.Gossip.Merging.{Keeps, merge_member_list-Keeps}

abbrev member : String → (incarnation last_seen priority : ℕ) → GossipMember
member id incarnation last_seen priority = record {
  id = id;
  address = "localhost:8080";
  state = alive;
  incarnation = incarnation;
  last_seen = last_seen;
  priority = some priority;
}

abbrev table : List GossipMember
table = member "a" 5 90_000 3 ∷ member "b" 5 99_000 7 ∷ []

abbrev received : List GossipMember
received = member "b" 8 99_500 7 ∷ member "c" 2 99_000 1 ∷ []

abbrev gossip : String → Gossip
gossip leader = record {
  node_id = "a";
  address = "localhost:8080";
  members = table;
  is_leader = false;
  current_leader = leader;
  leader_term = 1;
  suspicion_timeout = 5_000;
  failure_timeout = 10_000;
  suspicions = [];
  registered = [];
  notified = [];
}

merge_member_list-Keeps_example :
    Keeps "b" (member "b" 5 99_000 7) (find_member "b" (merge_member_list "a" received table))
unfolding find_member
merge_member_list-Keeps_example =
    merge_member_list-Keeps "a" received table "b" (member "b" 5 99_000 7) (ground arith, λ _. refl)
