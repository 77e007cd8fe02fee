-- ===== src/Concurrent/Invariant/Schedule.antt =====
-- Bytes before event at every moment of every schedule.
use foto.Base.{ℕ, ◌≡◌, inl, inr, sym, subst, Bool-cases, ◌==◌, List, [], ◌∷◌, All, Bytes}
use foto.Blob.Ref.{Sha256}
use foto.Blob.Store.{Store, IsStore, IsCollisionFree, IsAddressed}
use foto.Photo.Query.Laws.{Exists}
use foto.Ingest.Storing.Laws.{Keeps, Keeps-trans}
use foto.Ingest.Webhook.{IngestResponse, accepted}
use foto.Concurrent.{Call, arrived, answered, System, step, run}
use foto.Concurrent.Invariant.{Tells, IsComplete, IsPhase, IsOrderly}
use foto.Concurrent.Invariant.Keeping.{phase-Keeps}
use foto.Concurrent.Invariant.Steps.{IsCallCorpus, proceed-IsStep}

module _ (sha : Sha256) (contents : Bytes → Type 0) (S : Store) (law : IsStore sha S)
    (free : IsCollisionFree sha contents) (calls : ℕ → Call S) where
  -- The contents that the calls of a schedule put into the store.
  abbrev pub AreCorpus : List ℕ → Type 0
  AreCorpus schedule = All (λ i. IsCallCorpus contents (calls i)) schedule

  step-phases :
      (i : ℕ) (system : System S)
      → IsCallCorpus contents (calls i)
      → IsOrderly S contents sha system
      → (j : ℕ)
      → IsPhase S contents
          (step calls i system).objects
          (step calls i system).log
          ((step calls i system).phases j)
  unfolding step
  step-phases i system corpus h j =
      let moved =
        proceed-IsStep sha contents S law free (calls i) (system.phases i) system.objects system.log
          corpus h.addressed h.complete (h.phases i) in
      elim (Bool-cases (i == j)) [
        | inl e ↦ rw e moved.phase
        | inr e ↦ rw e (
            phase-Keeps S contents system.objects _ system.log _ (system.phases j) moved.keeps
              moved.grows (h.phases j))
      ]

  step-IsOrderly :
      (i : ℕ) (system : System S)
      → IsCallCorpus contents (calls i)
      → IsOrderly S contents sha system
      → IsOrderly S contents sha (step calls i system)
        × Keeps S system.objects (step calls i system).objects
  unfolding step
  step-IsOrderly i system corpus h =
      let moved =
        proceed-IsStep sha contents S law free (calls i) (system.phases i) system.objects system.log
          corpus h.addressed h.complete (h.phases i) in
      (
        record {
          addressed = moved.addressed;
          complete = moved.complete;
          phases = step-phases i system corpus h;
        },
        moved.keeps,
      )

  run-IsOrderly :
      (schedule : List ℕ) (system : System S)
      → AreCorpus schedule
      → IsOrderly S contents sha system
      → IsOrderly S contents sha (run calls schedule system)
        × Keeps S system.objects (run calls schedule system).objects
  unfolding run
  run-IsOrderly [] system corpus h = (h, λ r b v. v)
  run-IsOrderly (i ∷ schedule) system (corpus, rest) h =
      let (next, keep) = step-IsOrderly i system corpus h in
      let (end, keeps) = run-IsOrderly schedule (step calls i system) rest next in
      (
        end,
        Keeps-trans S system.objects (step calls i system).objects
            (run calls (i ∷ schedule) system).objects keep keeps,
      )

  -- What is true of the store and the log at a moment, and since an earlier one.
  pub record IsSettled (start end : System S) : Type 0 where
    pub addressed : IsAddressed sha contents S end.objects
    pub keeps : Keeps S start.objects end.objects
    pub complete : IsComplete S end.objects end.log
    pub told :
        (i : ℕ) (res : IngestResponse)
        → end.phases i ≡ answered (accepted res)
        → Exists (Tells res) end.log

  -- However the steps of any number of calls interleave, each call with its own payload, secret and
  -- faults: at every moment the store has the original, the display image and the renditions of every
  -- photograph in the log, in the sizes that the event names, no object of the start is lost, every object
  -- concerned lies under its hash, and a call that has answered that its photograph is accepted has its
  -- event in the log. The store keeps its contract, no two of the contents that the calls of the schedule store
  -- collide, the log at the start has the bytes of its photographs in the store, and the calls have
  -- just arrived.
  pub run-IsSettled :
      (schedule : List ℕ) (system : System S)
      → AreCorpus schedule
      → IsAddressed sha contents S system.objects
      → IsComplete S system.objects system.log
      → ((i : ℕ) → system.phases i ≡ arrived)
      → IsSettled system (run calls schedule system)
  run-IsSettled schedule system corpus a c fresh =
      let start : IsOrderly S contents sha system = record {
        addressed = a;
        complete = c;
        phases = λ i. subst (IsPhase S contents system.objects system.log) (sym (fresh i)) tt;
      } in
      let (end, keeps) = run-IsOrderly schedule system corpus start in
      let after = run calls schedule system in
      record {
        addressed = end.addressed;
        keeps = keeps;
        complete = end.complete;
        told = λ i res e. subst (IsPhase S contents after.objects after.log) e (end.phases i);
      }
