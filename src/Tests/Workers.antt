-- ===== src/Tests/Workers.antt =====
-- The theorem of Workerpool after a job has reached one of two workers.
use z.Prelude.{refl, true, [], ◌∷◌, arith}
use z.Workerpool.{Pool, Run, start, queue, enqueue, dispatch, offer, take_worker, deliver}
use z.Workerpool.Sound.{IsSound, Run-IsSound}

abbrev after : Pool
after = record {
  queueing = [];
  job_queue = [];
  dispatched = [];
  assigned = [];
  busy = (4, 9) ∷ [];
  handled = [];
  idle = 3 ∷ [];
  pool = [];
  selecting = [];
  stopped = [];
  running = true;
  submitted = 9 ∷ [];
}

-- The run of job 9 to worker 4.
delivered : Run 8 2 (start (3 ∷ 4 ∷ [])) after
unfolding start
delivered =
    Run.next
      (Run.next
        (Run.next
          (Run.next (Run.next (Run.next Run.here (queue 9)) (enqueue [] [] 9 refl (omega arith)))
            (dispatch 9 [] refl refl))
          (offer (3 ∷ []) [] 4 refl (omega arith)))
        (take_worker [] [] 9 4 [] refl refl))
      (deliver [] [] [] [] 4 9 refl refl)

Run-IsSound_example : IsSound (3 ∷ 4 ∷ []) after
Run-IsSound_example = Run-IsSound 8 2 (3 ∷ 4 ∷ []) delivered
