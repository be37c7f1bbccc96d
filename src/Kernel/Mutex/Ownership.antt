-- ===== src/Kernel/Mutex/Ownership.antt =====
-- Who owns a mutex, and how often.
use prismatic_os.Base.{
  ℕ, zero, suc, ◌+◌, ◌-◌, ◌^◌, ◌<◌, ◌≡◌, ap, ◌∙◌, ◌≢◌, ◌⊎◌, true, false, Option, none, some, arith,
}
use prismatic_os.Kernel.Thread.{null, Sched}
use prismatic_os.Kernel.Mutex.{
  Mutex, current_tid, wait_for, mutex_lock, hand_over, mutex_unlock, mutex_trylock,
}

-- A free mutex is not counted, and a taken one is; a free one has nobody waiting.
pub record IsValid (m : Mutex) : Type 0 where
  pub free : m.owner ≡ 0 → (m.lock_count ≡ 0) × (m.wait_queue ≡ null)
  pub taken : m.owner ≢ 0 → 0 < m.lock_count
  pub small : m.lock_count < 2 ^ 32 - 1

abbrev pub Holds : (Mutex → Type 0) → Option Mutex → Type 0
Holds P none = Unit
Holds P (some m) = P m

-- mutex_trylock takes a free mutex and no other, and changes nothing when it fails.
pub mutex_trylock_lem :
    (s : Sched) (m : Mutex)
    → m.initialized ≡ true
    → ((m.owner ≡ 0)
        × (mutex_trylock s (some m)
            ≡ (some (record m { owner = current_tid s; lock_count = 1 }), true)))
      ⊎ ((m.owner ≢ 0) × (mutex_trylock s (some m) ≡ (some m, false)))
unfolding mutex_trylock
mutex_trylock_lem s m ok = ground arith

-- A thread that does not own the mutex cannot unlock it, and the refusal changes nothing.
pub mutex_unlock_refused :
    (s : Sched) (m : Mutex) → m.owner ≢ current_tid s → mutex_unlock s (some m) ≡ (s, some m, false)
unfolding mutex_unlock
mutex_unlock_refused s m ne = ground arith

-- `n` calls of mutex_lock, and of mutex_unlock, by the same thread.
pub locks : ℕ → ℕ → Sched → Option Mutex → Sched × Option Mutex
locks fuel zero s m = (s, m)
locks fuel (suc n) s m = let (s', m', ok) = mutex_lock fuel s m in locks fuel n s' m'

pub unlocks : ℕ → Sched → Option Mutex → Sched × Option Mutex
unlocks zero s m = (s, m)
unlocks (suc n) s m = let (s', m', ok) = mutex_unlock s m in unlocks n s' m'

abbrev counted : Mutex → ℕ → Mutex
counted m n = record m { lock_count = n }

module _ (fuel : ℕ) (s : Sched) where
  lock_again :
      (m : Mutex)
      → m.initialized ≡ true
      → m.owner ≡ current_tid s
      → m.owner ≢ 0
      → m.lock_count + 1 < 2 ^ 32
      → mutex_lock fuel s (some m) ≡ (s, some (counted m (m.lock_count + 1)), true)
  unfolding mutex_lock
  lock_again m ok own taken h = ground arith

  unlock_once :
      (m : Mutex)
      → m.initialized ≡ true
      → m.owner ≡ current_tid s
      → 1 < m.lock_count
      → m.lock_count < 2 ^ 32
      → mutex_unlock s (some m) ≡ (s, some (counted m (m.lock_count - 1)), true)
  unfolding mutex_unlock
  unlock_once m ok own h fits = ground arith

  locks_lem :
      (n : ℕ) (m : Mutex)
      → m.initialized ≡ true
      → m.owner ≡ current_tid s
      → m.owner ≢ 0
      → m.lock_count + n < 2 ^ 32
      → locks fuel n s (some m) ≡ (s, some (record m { lock_count = m.lock_count + n }))
  unfolding locks
  locks_lem zero m ok own taken h = ground arith
  locks_lem (suc n) m ok own taken h =
      let more : m.lock_count + 1 + n ≡ m.lock_count + suc n = omega arith in
      rw (lock_again m ok own taken (omega arith)) (
        locks_lem n (counted m (m.lock_count + 1)) ok own taken (omega arith)
        ∙ ap (λ k. (s, some (counted m k))) more)

  unlocks_lem :
      (n : ℕ) (m : Mutex)
      → m.initialized ≡ true
      → m.owner ≡ current_tid s
      → n < m.lock_count
      → m.lock_count < 2 ^ 32
      → unlocks n s (some m) ≡ (s, some (record m { lock_count = m.lock_count - n }))
  unfolding unlocks
  unlocks_lem zero m ok own h fits = ground arith
  unlocks_lem (suc n) m ok own h fits =
      let less : m.lock_count - 1 - n ≡ m.lock_count - suc n = omega arith in
      rw (unlock_once m ok own (omega arith) fits) (
        unlocks_lem n (counted m (m.lock_count - 1)) ok own (omega arith) (omega arith)
        ∙ ap (λ k. (s, some (counted m k))) less)

  -- The mutex is recursive: on an initialised mutex that the current thread owns, `n` locks add `n`
  -- to its count, and `n` unlocks after them leave it as it was, where the count stays below 2 ^
  -- 32.
  pub unlocks-locks :
      (n : ℕ) (m : Mutex)
      → m.initialized ≡ true
      → m.owner ≡ current_tid s
      → m.owner ≢ 0
      → 0 < m.lock_count
      → m.lock_count + n < 2 ^ 32
      → (locks fuel n s (some m) ≡ (s, some (counted m (m.lock_count + n))))
        × (unlocks n s (some (counted m (m.lock_count + n))) ≡ (s, some m))
  unlocks-locks n m ok own taken pos h = (
    locks_lem n m ok own taken h,
    (let back : m.lock_count + n - n ≡ m.lock_count = omega arith in
        unlocks_lem n (counted m (m.lock_count + n)) ok own (omega arith) h
        ∙ ap (λ k. (s, some (counted m k))) back),
  )

  -- A free initialised mutex with nobody waiting is taken by mutex_lock with a count of 1, and
  -- given back by the matching mutex_unlock; the scheduler is not touched.
  pub lock-unlock :
      (m : Mutex)
      → m.initialized ≡ true
      → m.owner ≡ 0
      → m.lock_count ≡ 0
      → m.wait_queue ≡ null
      → current_tid s ≢ 0
      → (mutex_lock fuel s (some m)
          ≡ (s, some (record m { owner = current_tid s; lock_count = 1 }), true))
        × (mutex_unlock s (mutex_lock fuel s (some m)).1 ≡ (s, some m, true))
  unfolding mutex_lock mutex_unlock hand_over
  lock-unlock m ok free none_held nobody someone = ground arith

-- Every operation keeps the invariant, whoever calls it and whether it succeeds.
module _ (fuel : ℕ) (s : Sched) (m : Mutex) (v : IsValid m) where
  pub mutex_lock-IsValid :
      current_tid s ≢ 0
      → m.lock_count + 1 < 2 ^ 32 - 1
      → Holds IsValid (mutex_lock fuel s (some m)).1
  unfolding mutex_lock wait_for
  mutex_lock-IsValid ne h = ground arith

  pub mutex_unlock-IsValid :
      current_tid s ≢ 0
      → (s.threads m.wait_queue).tid ≢ 0
      → Holds IsValid (mutex_unlock s (some m)).1
  unfolding mutex_unlock hand_over
  mutex_unlock-IsValid someone ne = ground arith

  pub mutex_trylock-IsValid : current_tid s ≢ 0 → Holds IsValid (mutex_trylock s (some m)).0
  unfolding mutex_trylock
  mutex_trylock-IsValid ne = ground arith
