-- ===== src/Queue/Sharing/Reaching.antt =====
-- What a worker may do in steps while the others stay where they are.
use distributed_job_processo.Base.{ℕ, ◌≡◌, refl, ◌∙◌, ◌≢◌, Bool, List, [], ◌∷◌}
use distributed_job_processo.Queue.Server.{
  Contents, Command, push_job, remove_delayed, run_commands, due,
}
use distributed_job_processo.Queue.Defs.{unix, pipeline}
use distributed_job_processo.Queue.Sharing.{
  Shared, Place, idle, moving, put, put_self, put_other, Step, search, run_push, run_remove, Steps,
  here, next, Steps-append,
}

module _ {D : Type 0} (same : D → D → Bool) where
  -- A worker may come to a place, with these data and these entries handed out, while the others
  -- stay where they are.
  pub record Reaches (s : Shared D) (i : ℕ) (c : Contents D) (p : Place D) (taken : List D)
      : Type 0 where
    pub last : Shared D
    pub steps : Steps same s last
    pub reached : last.contents ≡ c
    pub at_end : last.place i ≡ p
    pub others : (j : ℕ) → i ≢ j → last.place j ≡ s.place j
    pub handed_out : last.taken ≡ taken

  pub Reaches-trans :
      {s : Shared D} {i : ℕ} {c d : Contents D} {p q : Place D} {l k : List D}
      → (r : Reaches s i c p l) → Reaches r.last i d q k
      → Reaches s i d q k
  Reaches-trans r t = record {
    last = t.last;
    steps = Steps-append r.steps t.steps;
    reached = t.reached;
    at_end = t.at_end;
    others = λ j h. t.others j h ∙ r.others j h;
    handed_out = t.handed_out;
  }

  -- One step of the worker
  pub Step-Reaches :
      (s : Shared D) (i : ℕ) (c : Contents D) (p : Place D) (accepted pushed taken refused : List D)
      → Step same s (record {
        contents = c;
        place = put s.place i p;
        accepted = accepted;
        pushed = pushed;
        taken = taken;
        refused = refused;
      })
      → Reaches s i c p taken
  Step-Reaches s i c p accepted pushed taken refused st = record {
    last = _;
    steps = next here st;
    reached = refl;
    at_end = put_self s.place i p;
    others = λ j h. put_other s.place i j p h;
    handed_out = refl;
  }

  Reaches-same :
      (s : Shared D) (i : ℕ) (p : Place D) → s.place i ≡ p → Reaches s i s.contents p s.taken
  Reaches-same s i p e = record {
    last = s;
    steps = here;
    reached = refl;
    at_end = e;
    others = λ j h. refl;
    handed_out = refl;
  }

  pub Reaches-eq :
      {s : Shared D} {i : ℕ} {c d : Contents D} {p : Place D} {l k : List D}
      → c ≡ d
      → l ≡ k
      → Reaches s i c p l
      → Reaches s i d p k
  Reaches-eq e f r = record {
    last = r.last;
    steps = r.steps;
    reached = r.reached ∙ e;
    at_end = r.at_end;
    others = r.others;
    handed_out = r.handed_out ∙ f;
  }

  -- A pipeline runs to its end.
  pub run_commands-Reaches :
      (i : ℕ) (cs : List (Command D)) (s : Shared D)
      → s.place i ≡ moving cs
      → Reaches s i (run_commands same s.contents cs) (moving []) s.taken
  unfolding Step-Reaches
  run_commands-Reaches i [] s e = Reaches-same s i (moving []) e
  run_commands-Reaches i (push_job d ∷ cs) s e =
      Reaches-trans (Step-Reaches s i _ _ _ _ _ _ (run_push i d cs e))
        (run_commands-Reaches i cs _ (put_self s.place i (moving cs)))
  run_commands-Reaches i (remove_delayed d ∷ cs) s e =
      Reaches-trans (Step-Reaches s i _ _ _ _ _ _ (run_remove i d cs e))
        (run_commands-Reaches i cs _ (put_self s.place i (moving cs)))

  -- A search with the pipeline behind it
  pub search-Reaches :
      (i now : ℕ) (s : Shared D)
      → s.place i ≡ idle
      → Reaches s i
          (run_commands same s.contents (pipeline (due (unix now) s.contents.delayed)))
          (moving [])
          s.taken
  unfolding Step-Reaches
  search-Reaches i now s e =
      Reaches-trans (Step-Reaches s i _ _ _ _ _ _ (search i now e))
        (run_commands-Reaches i _ _ (put_self s.place i _))
