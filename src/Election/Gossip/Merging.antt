-- ===== src/Election/Gossip/Merging.antt =====
-- Merging member tables: `mergeMemberList` of internal/election/gossip.go.
use distributed_job_processo.Base.{
  String, ◌≡◌, refl, sym, ap, subst, inl, inr, true, false, Option, none, some, List, [], ◌∷◌,
  arith, str_eq, eq_iff, if◌then◌else◌, Bool-cases, str_eq_self, All, slt,
}
use distributed_job_processo.Election.Gossip.Table.{
  GossipMember, find_member, renew, absorb, merge_member_list,
}

-- The table knows the member with an incarnation that is not lower, and exactly as `x` if it is
-- equal.
abbrev pub Keeps : String → GossipMember → Option GossipMember → Type 0
Keeps id x none = ⊥
Keeps id x (some y) =
    (slt y.incarnation x.incarnation ≡ false) × (y.incarnation ≡ x.incarnation → y ≡ x)

abbrev absorbed : GossipMember → Option GossipMember → GossipMember
absorbed m none = m
absorbed m (some x) = renew m x

renew-id : (m x : GossipMember) → (renew m x).id ≡ x.id
renew-id m x = ground arith

find-absorb_self :
    (m : GossipMember) (ms : List GossipMember)
    → find_member m.id (absorb m ms) ≡ some (absorbed m (find_member m.id ms))
unfolding find_member absorb
find-absorb_self m [] = rw (str_eq_self m.id) refl
find-absorb_self m (x ∷ xs) = elim (Bool-cases (str_eq x.id m.id)) [
  | inl e ↦ rw e (rw (renew-id m x, e) refl)
  | inr e ↦ rw e (rw e (find-absorb_self m xs))
]

apart : (a b c : String) → str_eq b c ≡ false → str_eq a b ≡ true → str_eq a c ≡ false
apart a b c h e = rw ((eq_iff a b).0 e) h

find-absorb_other :
    (id : String) (m : GossipMember) (ms : List GossipMember)
    → str_eq m.id id ≡ false
    → find_member id (absorb m ms) ≡ find_member id ms
unfolding find_member absorb
find-absorb_other id m [] h = rw h refl
find-absorb_other id m (x ∷ xs) h = elim (Bool-cases (str_eq x.id m.id)) [
  | inl e ↦ rw e (rw (renew-id m x, apart x.id m.id id h e) refl)
  | inr e ↦ rw e (ap (λ r. if str_eq x.id id then some x else r) (find-absorb_other id m xs h))
]

Keeps-self : (id : String) (x : GossipMember) → Keeps id x (some x)
Keeps-self id x = (ground arith, λ _. refl)

renew-Keeps :
    (id : String) (m x y : GossipMember) → Keeps id x (some y) → Keeps id x (some (renew m y))
renew-Keeps id m x y (higher, same) = elim (Bool-cases (slt y.incarnation m.incarnation)) [
  | inl e ↦ rw e (ground arith, λ s. absurd (ground arith))
  | inr e ↦ rw e (higher, same)
]

absorbed-Keeps :
    (id : String) (m x : GossipMember) (o : Option GossipMember)
    → Keeps id x o
    → Keeps id x (some (absorbed m o))
absorbed-Keeps id m x none k = absurd k
absorbed-Keeps id m x (some y) k = renew-Keeps id m x y k

absorb-Keeps :
    (id : String) (m x : GossipMember) (ms : List GossipMember)
    → Keeps id x (find_member id ms)
    → Keeps id x (find_member id (absorb m ms))
absorb-Keeps id m x ms k = elim (Bool-cases (str_eq m.id id)) [
  | inl e ↦
      let same = (eq_iff m.id id).0 e in
      subst (λ i. Keeps i x (find_member i (absorb m ms))) same
        (rw (find-absorb_self m ms) (
          absorbed-Keeps m.id m x (find_member m.id ms)
            (subst (λ i. Keeps i x (find_member i ms)) (sym same) k)))
  | inr e ↦ rw (find-absorb_other id m ms e) k
]

-- Incarnations never go down: a merge keeps each member that the table knows, with an incarnation
-- that is not lower, and changes it only if the incarnation goes up.
pub merge_member_list-Keeps :
    (own : String) (l ms : List GossipMember) (id : String) (x : GossipMember)
    → Keeps id x (find_member id ms)
    → Keeps id x (find_member id (merge_member_list own l ms))
unfolding merge_member_list
merge_member_list-Keeps own [] ms id x k = k
merge_member_list-Keeps own (m ∷ l) ms id x k = elim (Bool-cases (str_eq m.id own)) [
  | inl e ↦ rw e (merge_member_list-Keeps own l ms id x k)
  | inr e ↦ rw e (merge_member_list-Keeps own l (absorb m ms) id x (absorb-Keeps id m x ms k))
]

-- The table knows `m` at its incarnation or a later one.
abbrev Known : GossipMember → Option GossipMember → Type 0
Known m none = ⊥
Known m (some x) = slt x.incarnation m.incarnation ≡ false

Known-of_Keeps :
    (id : String) (m x : GossipMember) (o : Option GossipMember)
    → Known m (some x)
    → Keeps id x o
    → Known m o
Known-of_Keeps id m x none k h = h
Known-of_Keeps id m x (some y) k h = ground arith

Known-keeps :
    (m n : GossipMember) (ms : List GossipMember) (o : Option GossipMember)
    → find_member m.id ms ≡ o
    → Known m o
    → Known m (find_member m.id (absorb n ms))
Known-keeps m n ms none e k = absurd k
Known-keeps m n ms (some x) e k =
    Known-of_Keeps m.id m x _ k
      (absorb-Keeps m.id n x ms (subst (Keeps m.id x) (sym e) (Keeps-self m.id x)))

absorbed-Known : (m : GossipMember) (o : Option GossipMember) → Known m (some (absorbed m o))
absorbed-Known m none = ground arith
absorbed-Known m (some x) = ground arith

renew_idle : (m x : GossipMember) → Known m (some x) → renew m x ≡ x
renew_idle m x k = ground arith

absorb_idle :
    (m : GossipMember) (ms : List GossipMember) → Known m (find_member m.id ms) → absorb m ms ≡ ms
unfolding absorb find_member
absorb_idle m [] k = absurd k
absorb_idle m (x ∷ xs) k = elim (Bool-cases (str_eq x.id m.id)) [
  | inl e ↦ rw e (
      ap (λ y. y ∷ xs)
        (renew_idle m x (subst (λ b. Known m (if b then some x else find_member m.id xs)) e k)))
  | inr e ↦ rw e (
      ap (λ l. x ∷ l)
        (absorb_idle m xs (subst (λ b. Known m (if b then some x else find_member m.id xs)) e k)))
]

abbrev Settled : String → List GossipMember → GossipMember → Type 0
Settled own ms m = str_eq m.id own ≡ false → Known m (find_member m.id ms)

merge_idle :
    (own : String) (l ms : List GossipMember)
    → All (Settled own ms) l
    → merge_member_list own l ms ≡ ms
unfolding merge_member_list
merge_idle own [] ms h = refl
merge_idle own (m ∷ l) ms h = elim (Bool-cases (str_eq m.id own)) [
  | inl e ↦ rw e (merge_idle own l ms h.1)
  | inr e ↦ rw (e, absorb_idle m ms (h.0 e)) (merge_idle own l ms h.1)
]

merge-Known :
    (own : String) (l ms : List GossipMember) (m : GossipMember)
    → Known m (find_member m.id ms)
    → Known m (find_member m.id (merge_member_list own l ms))
unfolding merge_member_list
merge-Known own [] ms m k = k
merge-Known own (n ∷ l) ms m k = elim (Bool-cases (str_eq n.id own)) [
  | inl e ↦ rw e (merge-Known own l ms m k)
  | inr e ↦
      rw e (merge-Known own l (absorb n ms) m (Known-keeps m n ms (find_member m.id ms) refl k))
]

merge-Settled :
    (own : String) (l ms : List GossipMember) → All (Settled own (merge_member_list own l ms)) l
unfolding merge_member_list
merge-Settled own [] ms = tt
merge-Settled own (m ∷ l) ms = elim (Bool-cases (str_eq m.id own)) [
  | inl e ↦
      subst (λ t. All (Settled own t) (m ∷ l)) (rw e refl)
        (λ other. absurd (ground arith), merge-Settled own l ms)
  | inr e ↦
      subst (λ t. All (Settled own t) (m ∷ l)) (rw e refl)
        (
          λ other.
              merge-Known own l (absorb m ms) m
                (rw (find-absorb_self m ms) (absorbed-Known m (find_member m.id ms))),
          merge-Settled own l (absorb m ms),
        )
]

-- Receiving the same table twice changes nothing the second time.
pub merge_member_list_idempotent :
    (own : String) (l ms : List GossipMember)
    → merge_member_list own l (merge_member_list own l ms) ≡ merge_member_list own l ms
merge_member_list_idempotent own l ms = merge_idle own l _ (merge-Settled own l ms)
