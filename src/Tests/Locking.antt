-- ===== src/Tests/Locking.antt =====
-- Two threads at the lock of include/core/memory.h.
use jaclibc.Base.{ℕ, ◌≡◌, ◌⊎◌, true, List, arith, refl}
use jaclibc.Alloc.{put}
use jaclibc.Lock.{
  System, Reach, begin, later, join, enter, leave, holding, waiting, outside, start, is_turn,
}
use jaclibc.Lock.Line.{IsLine}
use jaclibc.Lock.Queue.{Move, Step-IsLine, Reach-IsLine}
use jaclibc.Lock.Exclusion.{lock_excludes, lock_goes_on}

-- Thread 0 holds the lock, thread 1 waits.
abbrev contended : System
contended = record {
  lock = record { next = 2; owner = 0 };
  pc = put (put (put start.pc 0 (waiting 0)) 1 (waiting 1)) 0 holding;
}

contended-Reach : Reach 2 contended
contended-Reach =
    later (later (later begin (join 0 (omega arith) refl)) (join 1 (omega arith) refl))
      (enter 0 0 refl refl)

lock_excludes_example : ◌≡◌ {A = ℕ} 0 0
lock_excludes_example = lock_excludes 2 contended 0 0 (omega arith) contended-Reach refl refl

lock_goes_on_example :
    (j : ℕ) × ((contended.pc j ≡ holding)
      ⊎ ((t : ℕ) × (contended.pc j ≡ waiting t) × (is_turn contended.lock t ≡ true)))
lock_goes_on_example =
    lock_goes_on 2 contended (omega arith) contended-Reach 1 (λ e. ground (arith, e))

-- Thread 0 leaves the lock.
abbrev released_lock : System
released_lock = record { lock = record { next = 2; owner = 1 }; pc = put contended.pc 0 outside }

contended_line : (q : List ℕ) × IsLine 2 contended q
contended_line = Reach-IsLine 2 contended (omega arith) contended-Reach

Step-IsLine_example : (q' : List ℕ) × Move contended_line.0 q' × IsLine 2 released_lock q'
Step-IsLine_example =
    Step-IsLine 2 contended released_lock contended_line.0 (omega arith) contended_line.1
      (leave 0 refl)
