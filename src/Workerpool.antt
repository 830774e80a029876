-- ===== src/Workerpool.antt =====
-- pkg/workerpool/workerpool.go: the dispatcher, its workers and the goroutines between them as a
-- machine whose steps are the sends and receives on the channels. A job and a worker are numbers.
pub mod Sound
use z.Prelude.{ℕ, ◌<◌, ◌≡◌, Bool, true, false, List, [], ◌∷◌, ◌++◌, length}

abbrev pub Job : Type 0
Job = ℕ

-- The jobs by the place where they are, and the workers by what they do:
-- queueing: the goroutines of Queue; job_queue: the channel JobQueue;
-- dispatched: the goroutines of Dispatch that wait for a worker's channel;
-- assigned: those that have one and send the job to it; busy: the workers in their handler;
-- idle: the workers before they send their channel to WorkerPool; pool: the channel WorkerPool;
-- selecting: the workers in their select statement; stopped: the workers that have returned.
pub record Pool : Type 0 where
  pub queueing : List Job
  pub job_queue : List Job
  pub dispatched : List Job
  pub assigned : List (ℕ × Job)
  pub busy : List (ℕ × Job)
  pub handled : List Job
  pub idle : List ℕ
  pub pool : List ℕ
  pub selecting : List ℕ
  pub stopped : List ℕ
  pub running : Bool
  pub submitted : List Job

-- NewDispatcher, AddWorker and Run, with these workers.
unfoldable pub start : List ℕ → Pool
start workers = record {
  queueing = [];
  job_queue = [];
  dispatched = [];
  assigned = [];
  busy = [];
  handled = [];
  idle = workers;
  pool = [];
  selecting = [];
  stopped = [];
  running = true;
  submitted = [];
}

-- The capacities of the channels JobQueue and WorkerPool.
module _ (max_waiting max_workers : ℕ) where
  pub data Step : Pool → Pool → Type 0 where
    -- Queue starts a goroutine.
    queue :
        {s : Pool} (j : Job)
        → Step s (record s { queueing = j ∷ s.queueing; submitted = j ∷ s.submitted })
    -- `d.JobQueue <- job`
    enqueue :
        {s : Pool} (a b : List Job) (j : Job)
        → s.queueing ≡ a ++ j ∷ b
        → length s.job_queue < max_waiting
        → Step s (record s { queueing = a ++ b; job_queue = s.job_queue ++ j ∷ [] })
    -- `job := <-d.JobQueue`, and a goroutine with it
    dispatch :
        {s : Pool} (j : Job) (rest : List Job)
        → s.running ≡ true
        → s.job_queue ≡ j ∷ rest
        → Step s (record s { job_queue = rest; dispatched = j ∷ s.dispatched })
    -- `w.WorkerPool <- w.JobChannel`
    offer :
        {s : Pool} (a b : List ℕ) (w : ℕ)
        → s.idle ≡ a ++ w ∷ b
        → length s.pool < max_workers
        → Step s (record s { idle = a ++ b; pool = s.pool ++ w ∷ []; selecting = w ∷ s.selecting })
    -- `jobChannel := <-d.WorkerPool`
    take_worker :
        {s : Pool} (a b : List Job) (j : Job) (w : ℕ) (rest : List ℕ)
        → s.dispatched ≡ a ++ j ∷ b
        → s.pool ≡ w ∷ rest
        → Step s (record s { dispatched = a ++ b; pool = rest; assigned = (w, j) ∷ s.assigned })
    -- `jobChannel <- job` and `job := <-w.JobChannel`
    deliver :
        {s : Pool} (a b : List (ℕ × Job)) (c d : List ℕ) (w : ℕ) (j : Job)
        → s.assigned ≡ a ++ (w, j) ∷ b
        → s.selecting ≡ c ++ w ∷ d
        → Step s (record s { assigned = a ++ b; selecting = c ++ d; busy = (w, j) ∷ s.busy })
    -- The handler returns.
    finish :
        {s : Pool} (a b : List (ℕ × Job)) (w : ℕ) (j : Job)
        → s.busy ≡ a ++ (w, j) ∷ b
        → Step s (record s { busy = a ++ b; handled = j ∷ s.handled; idle = w ∷ s.idle })
    -- Stop, and the dispatcher's case for it
    stop : {s : Pool} → Step s (record s { running = false })
    -- `<-w.quit`
    stop_worker :
        {s : Pool} (a b : List ℕ) (w : ℕ)
        → s.running ≡ false
        → s.selecting ≡ a ++ w ∷ b
        → Step s (record s { selecting = a ++ b; stopped = w ∷ s.stopped })

  pub data Run : Pool → Pool → Type 0 where
    here : {s : Pool} → Run s s
    next : {s t u : Pool} → Run s t → Step t u → Run s u
