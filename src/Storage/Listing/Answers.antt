-- ===== src/Storage/Listing/Answers.antt =====
-- The answers of `GetJobs` (internal/storage/mongodb.go) against the documents.
use distributed_job_processo.Base.{
  ℕ, zero, suc, ◌≤◌, String, Option, none, str_eq, eq_iff, ◌&&◌, ◌||◌, ◌⊎◌, ◌↔◌, ◌≡◌, refl, sym, ap,
  ◌∙◌, subst, inl, inr, Bool, true, false, some, List, [], ◌∷◌, arith, ◌==◌, if◌then◌else◌,
  Bool-cases, length, filter, Member, All, slt,
}
use mathlib.Core.List.{Permᴰ}
use mathlib.Core.List.Permᴰ
use distributed_job_processo.Job.{Job}
use distributed_job_processo.Storage.Listing.{
  JobFilter, in_list, status_matches, not_before, not_after, matches, FindOptions, find_options,
  Queries, get_jobs, drop, take, page, NewestFirst, Finds,
}

Member-perm : (a : Job) {xs ys : List Job} → Permᴰ xs ys → Member a xs → Member a ys
Member-perm a Permᴰ.nil m = absurd m
Member-perm a (Permᴰ.cons e p) (inl h) = inl (h ∙ e)
Member-perm a (Permᴰ.cons e p) (inr m) = inr (Member-perm a p m)
Member-perm a (Permᴰ.swap e f) (inl h) = inr (inl (h ∙ e))
Member-perm a (Permᴰ.swap e f) (inr (inl h)) = inl (h ∙ f)
Member-perm a (Permᴰ.swap e f) (inr (inr m)) = inr (inr m)
Member-perm a (Permᴰ.trans p q) m = Member-perm a q (Member-perm a p m)

length-perm : {xs ys : List Job} → Permᴰ xs ys → length ys ≡ length xs
length-perm Permᴰ.nil = refl
length-perm (Permᴰ.cons e p) = ap suc (length-perm p)
length-perm (Permᴰ.swap e f) = refl
length-perm (Permᴰ.trans p q) = length-perm q ∙ length-perm p

length-filter : (test : Job → Bool) (l : List Job) → length (filter test l) ≤ length l
length-filter test [] = omega arith
length-filter test (x ∷ l) = ground (arith, length-filter test l)

kept_head :
    (test : Job → Bool) (a x : Job) (l : List Job)
    → (Member a (filter test l) → (test a ≡ true) × Member a l)
    → test x ≡ true
    → Member a (x ∷ filter test l)
    → (test a ≡ true) × Member a (x ∷ l)
kept_head test a x l f t (inl e) = (ap test e ∙ t, inl e)
kept_head test a x l f t (inr i) = let (h, j) = f i in (h, inr j)

Member-filter :
    (test : Job → Bool) (a : Job) (l : List Job)
    → Member a (filter test l)
    → (test a ≡ true) × Member a l
Member-filter test a [] m = absurd m
Member-filter test a (x ∷ l) m = elim (Bool-cases (test x)) [
  | inl t ↦
      kept_head test a x l (Member-filter test a l) t
        (subst (λ b. Member a (if b then x ∷ filter test l else filter test l)) t m)
  | inr t ↦
      let (h, i) =
        Member-filter test a l
          (subst (λ b. Member a (if b then x ∷ filter test l else filter test l)) t m) in
      (h, inr i)
]

Member-filter_of :
    (test : Job → Bool) (a : Job) (l : List Job)
    → test a ≡ true
    → Member a l
    → Member a (filter test l)
Member-filter_of test a [] t m = absurd m
Member-filter_of test a (x ∷ l) t (inl e) = rw (sym (ap test e) ∙ t) (inl e)
Member-filter_of test a (x ∷ l) t (inr m) = elim (Bool-cases (test x)) [
  | inl h ↦ rw h (inr (Member-filter_of test a l t m))
  | inr h ↦ rw h (Member-filter_of test a l t m)
]

Member-drop : (n : ℕ) (a : Job) (l : List Job) → Member a (drop n l) → Member a l
Member-drop zero a l m = m
Member-drop (suc n) a [] m = m
Member-drop (suc n) a (x ∷ l) m = inr (Member-drop n a l m)

Member-take : (n : ℕ) (a : Job) (l : List Job) → Member a (take n l) → Member a l
Member-take zero a l m = absurd m
Member-take (suc n) a [] m = m
Member-take (suc n) a (x ∷ l) (inl e) = inl e
Member-take (suc n) a (x ∷ l) (inr m) = inr (Member-take n a l m)

All-take : (P : Job → Type 0) (n : ℕ) (l : List Job) → All P l → All P (take n l)
All-take P zero l h = tt
All-take P (suc n) [] h = tt
All-take P (suc n) (x ∷ l) h = (h.0, All-take P n l h.1)

NewestFirst-drop : (n : ℕ) (l : List Job) → NewestFirst l → NewestFirst (drop n l)
NewestFirst-drop zero l h = h
NewestFirst-drop (suc n) [] h = tt
NewestFirst-drop (suc n) (x ∷ l) h = NewestFirst-drop n l h.1

NewestFirst-take : (n : ℕ) (l : List Job) → NewestFirst l → NewestFirst (take n l)
NewestFirst-take zero l h = tt
NewestFirst-take (suc n) [] h = tt
NewestFirst-take (suc n) (x ∷ l) h = (All-take _ n l h.0, NewestFirst-take n l h.1)

length-take : (n : ℕ) (l : List Job) → length (take n l) ≤ n
length-take zero l = omega arith
length-take (suc n) [] = omega arith
length-take (suc n) (x ∷ l) = omega (arith, length-take n l)

length-drop : (n : ℕ) (l : List Job) → length (drop n l) ≤ length l
length-drop zero l = omega arith
length-drop (suc n) [] = omega arith
length-drop (suc n) (x ∷ l) = omega (arith, length-drop n l)

page-Member : (o : FindOptions) (a : Job) (l : List Job) → Member a (page o l) → Member a l
page-Member o a l m = elim (Bool-cases (o.limit == 0)) [
  | inl e ↦
      Member-drop o.skip a l
        (subst (λ b. Member a (if b then drop o.skip l else take o.limit (drop o.skip l))) e m)
  | inr e ↦ Member-drop o.skip a l (
      Member-take o.limit a _
        (subst (λ b. Member a (if b then drop o.skip l else take o.limit (drop o.skip l))) e m))
]

page-NewestFirst : (o : FindOptions) (l : List Job) → NewestFirst l → NewestFirst (page o l)
page-NewestFirst o l h = elim (Bool-cases (o.limit == 0)) [
  | inl e ↦ rw e (NewestFirst-drop o.skip l h)
  | inr e ↦ rw e (NewestFirst-take o.limit _ (NewestFirst-drop o.skip l h))
]

length-page :
    (o : FindOptions) (l : List Job)
    → length (page o l) ≤ (if o.limit == 0 then length l else o.limit)
length-page o l = ground (arith, length-take o.limit (drop o.skip l), length-drop o.skip l)

All-of_Member : (P : Job → Type 0) (l : List Job) → ((a : Job) → Member a l → P a) → All P l
All-of_Member P [] f = tt
All-of_Member P (x ∷ l) f = (f x (inl refl), All-of_Member P l (λ a m. f a (inr m)))

whole_page :
    (f : JobFilter) (l : List Job)
    → slt 0 f.limit ≡ false
    → slt 0 f.offset ≡ false
    → page (find_options f) l ≡ l
unfolding find_options
whole_page f l no_limit no_offset = rw (no_limit, no_offset) refl

length-options :
    (f : JobFilter) (n : ℕ)
    → (if (find_options f).limit == 0 then n else (find_options f).limit)
      ≤ (if slt 0 f.limit then f.limit else n)
unfolding find_options
length-options f n = ground arith

-- What a filter asks of a job: one of its states, its type, its worker and its times, each only
-- if it is given.
abbrev pub Wanted : JobFilter → Job → Type 0
Wanted f j =
    ((f.status ≡ []) ⊎ Member j.status f.status)
    × ((f.type ≡ "") ⊎ (j.type ≡ f.type))
    × ((f.worker_id ≡ "") ⊎ (j.worker_id ≡ f.worker_id))
    × ((t : ℕ) → f.created_after ≡ some t → t ≤ j.created_at)
    × ((t : ℕ) → f.created_before ≡ some t → j.created_at ≤ t)

and_iff :
    {P Q : Type 0} (a b : Bool) → (a ≡ true) ↔ P → (b ≡ true) ↔ Q → ((a && b) ≡ true) ↔ (P × Q)
and_iff true b p q = (λ e. (p.0 refl, q.0 e), λ h. q.1 h.1)
and_iff false b p q = (λ e. absurd (ground arith), λ h. p.1 h.0)

or_iff : {P Q : Type 0} (a b : Bool) → (a ≡ true) ↔ P → (b ≡ true) ↔ Q → ((a || b) ≡ true) ↔ (P ⊎ Q)
or_iff true b p q = (λ e. inl (p.0 refl), λ h. refl)
or_iff false b p q =
    (λ e. inr (q.0 e), λ h. elim h [ inl x ↦ absurd (ground (arith, p.1 x)) | inr y ↦ q.1 y ])

in_list_iff : (s : String) (l : List String) → (in_list s l ≡ true) ↔ Member s l
in_list_iff s [] = (λ e. absurd (ground arith), λ m. absurd m)
in_list_iff s (x ∷ xs) = or_iff _ _ (equal s x) (in_list_iff s xs)
  where
    equal : (s x : String) → (str_eq x s ≡ true) ↔ (s ≡ x)
    equal s x = (λ e. sym ((eq_iff x s).0 e), λ e. (eq_iff x s).1 (sym e))

status_matches_iff :
    (l : List String) (j : Job) → (status_matches l j ≡ true) ↔ ((l ≡ []) ⊎ Member j.status l)
status_matches_iff [] j = (λ e. inl refl, λ m. refl)
status_matches_iff (s ∷ ss) j = (
  λ e. inr ((in_list_iff j.status (s ∷ ss)).0 e),
  λ m. elim m [ inl e ↦ absurd (ground arith) | inr i ↦ (in_list_iff j.status (s ∷ ss)).1 i ],
)

not_before_iff : (o : Option ℕ) (t : ℕ) → (not_before o t ≡ true) ↔ ((b : ℕ) → o ≡ some b → b ≤ t)
not_before_iff none t = (λ e b h. absurd (ground arith), λ h. refl)
not_before_iff (some b) t = (λ e c h. ground arith, λ h. let k = h b refl in ground arith)

not_after_iff : (o : Option ℕ) (t : ℕ) → (not_after o t ≡ true) ↔ ((b : ℕ) → o ≡ some b → t ≤ b)
not_after_iff none t = (λ e b h. absurd (ground arith), λ h. refl)
not_after_iff (some b) t = (λ e c h. ground arith, λ h. let k = h b refl in ground arith)

-- The query that `GetJobs` sends asks what the filter asks.
pub matches_iff : (f : JobFilter) (j : Job) → (matches f j ≡ true) ↔ Wanted f j
unfolding matches
matches_iff f j =
    let all =
      and_iff _ _
        (and_iff _ _
          (and_iff _ _
            (and_iff _ _ (status_matches_iff f.status j)
              (or_iff _ _ (eq_iff f.type "") (eq_iff j.type f.type)))
            (or_iff _ _ (eq_iff f.worker_id "") (eq_iff j.worker_id f.worker_id)))
          (not_before_iff f.created_after j.created_at))
        (not_after_iff f.created_before j.created_at) in
    (
      λ e.
          let ((((state, kind), worker), after), before) = all.0 e in
          (state, kind, worker, after, before),
      λ w. all.1 ((((w.0, w.1), w.2), w.3), w.4),
    )

module _ {M : Type 0} (queries : Queries M) (documents : M → List Job)
    (effects : Finds queries documents) (f : JobFilter) (m : M) (l : List Job) where
  -- With the documented effect of Find, what `GetJobs` returns are documents that the filter asks
  -- for, each with its state, type, worker and times where they are given, the newest first, no more than a positive limit or, without one, than there are
  -- documents.
  pub get_jobs-Lists :
      get_jobs queries f m ≡ some l
      → All (λ j. Wanted f j × Member j (documents m)) l
        × NewestFirst l
        × (length l ≤ (if slt 0 f.limit then f.limit else length (documents m)))
  unfolding get_jobs find_options
  get_jobs-Lists e =
      let (ordered, perm, newest, same) =
        effects.find_effect (matches f) (find_options f) m l refl e in
      (
        All-of_Member _ l (λ a i.
            let (h, k) = Member-filter (matches f) a (documents m) (
              Member-perm a (Permᴰ.symm perm)
                (page-Member (find_options f) a ordered (subst (Member a) same i))) in
            ((matches_iff f a).0 h, k)),
        subst NewestFirst (sym same) (page-NewestFirst (find_options f) ordered newest),
        bounded ordered (ap length same) (length-perm perm),
      )
    where
      bounded :
          (ordered : List Job)
          → length l ≡ length (page (find_options f) ordered)
          → length ordered ≡ length (filter (matches f) (documents m))
          → length l ≤ (if slt 0 f.limit then f.limit else length (documents m))
      bounded ordered e p =
          let a = length-page (find_options f) ordered in
          let b = length-filter (matches f) (documents m) in
          let c = length-options f (length (documents m)) in ground arith

  -- With the documented effect of Find and without a positive limit and offset, every document
  -- that the filter asks for is in the answer.
  pub get_jobs_complete :
      get_jobs queries f m ≡ some l
      → slt 0 f.limit ≡ false
      → slt 0 f.offset ≡ false
      → (j : Job) → Member j (documents m)
      → Wanted f j
      → Member j l
  unfolding get_jobs find_options
  get_jobs_complete e no_limit no_offset j i h =
      let (ordered, perm, newest, same) =
        effects.find_effect (matches f) (find_options f) m l refl e in
      subst (Member j) (sym same) (
        subst (Member j) (sym (whole_page f ordered no_limit no_offset)) (
          Member-perm j perm
            (Member-filter_of (matches f) j (documents m) ((matches_iff f j).1 h) i)))
