-- ===== src/Election/Bully/Starting.antt =====
-- The start of a bully election, its rounds and its questions (internal/election/bully.go).
use distributed_job_processo.Base.{
  ℕ, zero, suc, ◌+◌, ◌-◌, ◌==◌, String, ◌≡◌, refl, ◌∙◌, false, ◌&&◌, Option, none, some, List, [],
  ◌∷◌, arith, ltb, leb, if◌then◌else◌,
}
use Prim.Native.Char.{code}
use Prim.Native.String.{◌++◌ as str_append}
use distributed_job_processo.Storage.Nodes.{NodeInfo}
use distributed_job_processo.Election.Bully.Node.{Bully, Inputs, update_nodes, check_leadership}
use distributed_job_processo.Election.Factory.{is_some}

-- The bytes of a character in UTF-8, and those of a string.
abbrev pub width : ℕ → ℕ
width c = if ltb c 0x80 then 1 else if ltb c 0x800 then 2 else if ltb c 0x10000 then 3 else 4

unfoldable pub bytes : String → ℕ
bytes String.[] = 0
bytes (String.◌∷◌ c s) = width (code c) + bytes s

-- The bytes that are left of a character that was cut are no UTF-8: each stands here as the
-- replacement character, as which Go reads it.
abbrev pub cut : ℕ → String → String
cut zero s = s
cut (suc n) s = str_append "�" (cut n s)

-- `s[n:]`, in bytes; an index behind the end panics (`none`).
unfoldable pub slice_from : ℕ → String → Option String
slice_from n String.[] = if n == 0 then some "" else none
slice_from n (String.◌∷◌ c s) =
    let rest = slice_from (n - width (code c)) s in
    if n == 0
    then some (String.◌∷◌ c s)
    else if leb (width (code c)) n
    then rest
    else some (cut (width (code c) - n) s)

abbrev pub address_of : Option String → Option String
address_of none = none
address_of (some rest) = some (str_append "job-processor-" (str_append rest ":8080"))

unfoldable pub generate_node_address : String → Option String
unfolding slice_from
generate_node_address id = address_of (slice_from 5 id)

abbrev pub node_with : String → (timeout : ℕ) → Option String → Option Bully
node_with id timeout none = none
node_with id timeout (some address) = some (record {
  node_id = id;
  node_addr = address;
  nodes = [];
  is_leader = false;
  timeout = timeout;
  registered = [];
  notified = [];
})

unfoldable pub new_bully : String → (timeout : ℕ) → Option Bully
unfolding generate_node_address
new_bully id timeout = node_with id timeout (generate_node_address id)

-- The loop of `getCurrentLeader`: the first live leader of the collection; the clock at each
-- node.
unfoldable pub live_leader : (timeout : ℕ) → (now : ℕ → ℕ) → List NodeInfo → String
live_leader timeout now [] = ""
live_leader timeout now (n ∷ ns) =
    let rest = live_leader timeout (λ i. now (suc i)) ns in
    if n.is_leader && ltb (now 0) (n.last_seen + timeout) then n.id else rest

abbrev pub get_current_leader : (timeout : ℕ) → (now : ℕ → ℕ) → Option (List NodeInfo) → String
get_current_leader timeout now none = ""
get_current_leader timeout now (some nodes) = live_leader timeout now nodes

unfoldable pub get_leader : (now : ℕ → ℕ) → Option (List NodeInfo) → Bully → String
unfolding live_leader
get_leader now stored b = if b.is_leader then b.node_id else get_current_leader b.timeout now stored

-- A round of `runElectionLoop`, the one before its loop and that of its ticker.
unfoldable pub election_round : Option (List NodeInfo) → Inputs → Bully → Bully
unfolding update_nodes check_leadership
election_round stored inputs b = check_leadership inputs (update_nodes stored b)

slice_from-length : (n : ℕ) (s : String) → is_some (slice_from n s) ≡ leb n (bytes s)
unfolding slice_from bytes
slice_from-length n String.[] = ground arith
slice_from-length n (String.◌∷◌ c s) =
    let rest = slice_from-length (n - width (code c)) s in ground arith

-- An id has an address, and does not make the constructor panic, exactly if it has five bytes.
pub generate_node_address-length :
    (id : String) → is_some (generate_node_address id) ≡ leb 5 (bytes id)
unfolding generate_node_address
generate_node_address-length id = addressed (slice_from 5 id) ∙ slice_from-length 5 id
  where
    addressed : (o : Option String) → is_some (address_of o) ≡ is_some o
    addressed none = refl
    addressed (some s) = refl
