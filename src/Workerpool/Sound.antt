-- ===== src/Workerpool/Sound.antt =====
-- No job of pkg/workerpool/workerpool.go is lost or handled twice, and a job that waits for a worker's
-- channel waits for one that is there to take it, unless it has stopped.
use z.Prelude.{ℕ, ◌+◌, ◌==◌, ◌≡◌, refl, ap, ◌∙◌, List, [], ◌∷◌, ◌++◌, if◌then◌else◌, arith}
use z.Workerpool.{
  Job, Pool, start, Step, queue, enqueue, dispatch, offer, take_worker, deliver, finish, stop,
  stop_worker, Run, here, next,
}

abbrev pub count : ℕ → List ℕ → ℕ
count x [] = 0
count x (y ∷ l) = (if x == y then 1 else 0) + count x l

-- The occurrences of a job, and of a worker, in a list of pairs.
abbrev pub count_job : Job → List (ℕ × Job) → ℕ
count_job j [] = 0
count_job j ((w, k) ∷ l) = (if j == k then 1 else 0) + count_job j l

abbrev pub count_worker : ℕ → List (ℕ × Job) → ℕ
count_worker w [] = 0
count_worker w ((v, j) ∷ l) = (if w == v then 1 else 0) + count_worker w l

count-append : (x : ℕ) (a b : List ℕ) → count x (a ++ b) ≡ count x a + count x b
count-append x [] b = omega arith
count-append x (y ∷ a) b = omega (arith, count-append x a b)

count_job-append :
    (x : ℕ) (a b : List (ℕ × Job)) → count_job x (a ++ b) ≡ count_job x a + count_job x b
count_job-append x [] b = omega arith
count_job-append x ((w, j) ∷ a) b = omega (arith, count_job-append x a b)

count_worker-append :
    (x : ℕ) (a b : List (ℕ × Job)) → count_worker x (a ++ b) ≡ count_worker x a + count_worker x b
count_worker-append x [] b = omega arith
count_worker-append x ((w, j) ∷ a) b = omega (arith, count_worker-append x a b)

count-split :
    (x y : ℕ) (l a b : List ℕ)
    → l ≡ a ++ y ∷ b
    → count x l ≡ (if x == y then 1 else 0) + count x (a ++ b)
count-split x y l a b h =
    ap (count x) h ∙ omega (arith, count-append x a (y ∷ b), count-append x a b)

count_job-split :
    (x w j : ℕ) (l a b : List (ℕ × Job))
    → l ≡ a ++ (w, j) ∷ b
    → count_job x l ≡ (if x == j then 1 else 0) + count_job x (a ++ b)
count_job-split x w j l a b h =
    ap (count_job x) h ∙ omega (arith, count_job-append x a ((w, j) ∷ b), count_job-append x a b)

count_worker-split :
    (x w j : ℕ) (l a b : List (ℕ × Job))
    → l ≡ a ++ (w, j) ∷ b
    → count_worker x l ≡ (if x == w then 1 else 0) + count_worker x (a ++ b)
count_worker-split x w j l a b h =
    ap (count_worker x) h
    ∙ omega (arith, count_worker-append x a ((w, j) ∷ b), count_worker-append x a b)

-- Every job is in one place, every worker does one thing, and the channels of the workers that wait
-- for a job or have stopped are in the pool or with a job.
pub record IsSound (workers : List ℕ) (s : Pool) : Type 0 where
  pub jobs :
      (j : Job)
      → count j s.submitted
        ≡ count j s.queueing
          + count j s.job_queue
          + count j s.dispatched
          + count_job j s.assigned
          + count_job j s.busy
          + count j s.handled
  pub doing :
      (w : ℕ)
      → count w workers
        ≡ count w s.idle + count w s.selecting + count_worker w s.busy + count w s.stopped
  pub channels :
      (w : ℕ) → count w s.pool + count_worker w s.assigned ≡ count w s.selecting + count w s.stopped

start-IsSound : (workers : List ℕ) → IsSound workers (start workers)
unfolding start
start-IsSound workers = record { jobs = λ j. refl; doing = λ w. omega arith; channels = λ w. refl }

module _ (max_waiting max_workers : ℕ) (workers : List ℕ) where
  pub Step-IsSound :
      {s t : Pool} → Step max_waiting max_workers s t → IsSound workers s → IsSound workers t
  Step-IsSound (queue {s} k) h = record {
    jobs = λ j. omega (arith, h.jobs j);
    doing = h.doing;
    channels = h.channels;
  }
  Step-IsSound (enqueue {s} a b k split room) h = record {
    jobs = λ j. omega (
      arith,
      h.jobs j,
      count-split j k s.queueing a b split,
      count-append j s.job_queue (k ∷ []),
    );
    doing = h.doing;
    channels = h.channels;
  }
  Step-IsSound (dispatch {s} k rest on split) h = record {
    jobs = λ j. omega (arith, h.jobs j, count-split j k s.job_queue [] rest split);
    doing = h.doing;
    channels = h.channels;
  }
  Step-IsSound (offer {s} a b w split room) h = record {
    jobs = h.jobs;
    doing = λ v. omega (arith, h.doing v, count-split v w s.idle a b split);
    channels = λ v. omega (arith, h.channels v, count-append v s.pool (w ∷ []));
  }
  Step-IsSound (take_worker {s} a b k w rest split head) h = record {
    jobs = λ j. omega (arith, h.jobs j, count-split j k s.dispatched a b split);
    doing = h.doing;
    channels = λ v. omega (arith, h.channels v, count-split v w s.pool [] rest head);
  }
  Step-IsSound (deliver {s} a b c d w k split waits) h = record {
    jobs = λ j. omega (arith, h.jobs j, count_job-split j w k s.assigned a b split);
    doing = λ v. omega (arith, h.doing v, count-split v w s.selecting c d waits);
    channels = λ v. omega (
      arith,
      h.channels v,
      count-split v w s.selecting c d waits,
      count_worker-split v w k s.assigned a b split,
    );
  }
  Step-IsSound (finish {s} a b w k split) h = record {
    jobs = λ j. omega (arith, h.jobs j, count_job-split j w k s.busy a b split);
    doing = λ v. omega (arith, h.doing v, count_worker-split v w k s.busy a b split);
    channels = h.channels;
  }
  Step-IsSound stop h = record { jobs = h.jobs; doing = h.doing; channels = h.channels }
  Step-IsSound (stop_worker {s} a b w off split) h = record {
    jobs = h.jobs;
    doing = λ v. omega (arith, h.doing v, count-split v w s.selecting a b split);
    channels = λ v. omega (arith, h.channels v, count-split v w s.selecting a b split);
  }

  Run-from-IsSound :
      {s t : Pool} → Run max_waiting max_workers s t → IsSound workers s → IsSound workers t
  Run-from-IsSound here h = h
  Run-from-IsSound (next run step) h = Step-IsSound step (Run-from-IsSound run h)

  -- In every state that the dispatcher and its workers reach from the start, by any interleaving of
  -- their steps, each submitted job is in exactly one place, so that none is lost and none is
  -- handled twice; each worker does one thing; and each worker's channel that is in the pool or
  -- held by a goroutine with a job belongs to a worker that waits in its select statement or has
  -- stopped, once for each such worker.
  pub Run-IsSound : {t : Pool} → Run max_waiting max_workers (start workers) t → IsSound workers t
  Run-IsSound run = Run-from-IsSound run (start-IsSound workers)
