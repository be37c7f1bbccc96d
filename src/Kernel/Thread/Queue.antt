-- ===== src/Kernel/Thread/Queue.antt =====
-- The ready queue as a doubly linked list, and adding a thread to it.
use prismatic_os.Base.{◌≡◌, ◌≢◌, true, false, List, [], ◌∷◌, arith}
use prismatic_os.Base.Linked
use prismatic_os.Base.Linked.{has}
use prismatic_os.Kernel.Thread.{
  Ptr, null, Threads, Sched, write, set_next, set_prev, scheduler_add_thread,
}

-- The threads `xs` are linked both ways, from `p` on and back to `q`.
abbrev pub Links : Threads → Ptr → Ptr → List Ptr → Type 0
Links th q p xs = Linked.Links (λ a. (th a).next) (λ a. (th a).prev) q p xs

-- The ready queue holds the threads `xs`, the first one in front.
abbrev pub IsQueue : Sched → List Ptr → Type 0
IsQueue s xs = Links s.threads null s.ready_queue xs

-- A change that spares the links of a list leaves it as it is.
pub Links-frame :
    (th th' : Threads) (q p : Ptr) (xs : List Ptr)
    → ((a : Ptr) → has a xs ≡ true → ((th' a).next ≡ (th a).next) × ((th' a).prev ≡ (th a).prev))
    → Links th q p xs
    → Links th' q p xs
Links-frame th th' =
    Linked.Links-frame (λ a. (th a).next) (λ a. (th a).prev) (λ a. (th' a).next) (λ a. (th' a).prev)

-- A thread that is not NULL and not queued stands in front of the queue when it is added, and the
-- others stay behind it in their order.
pub scheduler_add_thread-IsQueue :
    (s : Sched) (t : Ptr) (xs : List Ptr)
    → t ≢ null
    → has t xs ≡ false
    → IsQueue s xs
    → IsQueue (scheduler_add_thread s t) (t ∷ xs)
unfolding scheduler_add_thread set_next set_prev write
scheduler_add_thread-IsQueue s t [] ne out l = ground arith
scheduler_add_thread-IsQueue s t (y ∷ ys) ne out (e, ney, back, outy, rest) =
    let added = scheduler_add_thread s t in
    let first : (added.ready_queue ≡ t)
        × ((added.threads t).prev ≡ null)
        × ((added.threads t).next ≡ y) =
      ground arith in
    let second : ((added.threads y).prev ≡ t) × ((added.threads y).next ≡ (s.threads y).next) =
      ground arith in
    (
      first.0,
      ne,
      first.1,
      out,
      (
        first.2,
        ney,
        second.0,
        outy,
        rw (second.1) (
            Links-frame s.threads added.threads y (s.threads y).next ys (λ a i. ground arith) rest),
      ),
    )
