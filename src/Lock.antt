-- ===== src/Lock.antt =====
-- include/core/memory.h: the ticket lock, __jacl_memlock_acquire, release and blank, and threads that
-- take it. The counters have 32 bits. A thread's place in acquire is a state of its own, and a step
-- is one atomic operation of one thread; the threads' steps interleave in any order.
pub mod Counting
pub mod Line
pub mod Queue
pub mod Exclusion
use jaclibc.Base.{ℕ, ◌+◌, ◌%◌, ◌^◌, ◌<◌, ◌≡◌, Bool, true, false, ◌==◌}
use jaclibc.Alloc.{put}

abbrev pub wrap : ℕ
wrap = 2 ^ 32

pub record Lock : Type 0 where
  pub next : ℕ
  pub owner : ℕ

-- __jacl_memlock_blank
abbrev pub blank : Lock
blank = record { next = 0; owner = 0 }

-- The fetch_add of acquire: the ticket and the lock.
abbrev pub take_ticket : Lock → ℕ × Lock
take_ticket l = (l.next, record l { next = (l.next + 1) % wrap })

-- Whether the loop of acquire ends.
abbrev pub is_turn : Lock → ℕ → Bool
is_turn l ticket = l.owner == ticket

-- __jacl_memlock_release
abbrev pub release : Lock → Lock
release l = record l { owner = (l.owner + 1) % wrap }

pub data Pc : Type 0 where
  outside holding : Pc
  waiting : ℕ → Pc

pub record System : Type 0 where
  pub lock : Lock
  pub pc : ℕ → Pc

pub data Step (n : ℕ) (s : System) : System → Type 0 where
  join :
      (i : ℕ)
      → i < n
      → s.pc i ≡ outside
      → Step n s (record {
        lock = (take_ticket s.lock).1;
        pc = put s.pc i (waiting (take_ticket s.lock).0);
      })
  spin : (i t : ℕ) → s.pc i ≡ waiting t → is_turn s.lock t ≡ false → Step n s s
  enter :
      (i t : ℕ)
      → s.pc i ≡ waiting t
      → is_turn s.lock t ≡ true
      → Step n s (record s { pc = put s.pc i holding })
  leave :
      (i : ℕ)
      → s.pc i ≡ holding
      → Step n s (record { lock = release s.lock; pc = put s.pc i outside })

abbrev pub start : System
start = record { lock = blank; pc = λ i. outside }

-- What n threads can come to.
pub data Reach (n : ℕ) : System → Type 0 where
  begin : Reach n start
  later : {s s' : System} → Reach n s → Step n s s' → Reach n s'
