-- ===== src/Kernel/Thread/Unlink.antt =====
-- scheduler_remove_thread takes a queued thread out of the queue and keeps the order of the others.
use prismatic_os.Base.{
  ◌≡◌, sym, ap, ◌∙◌, ◌≢◌, inl, inr, true, List, arith, ◌==◌, ◌!=◌, if◌then◌else◌, eq_false_of_ne,
}
use prismatic_os.Base.Linked.{erase, has, has-null, prev-mem, apart, Links-erase}
use mathlib.Core.Path.{subst}
use prismatic_os.Kernel.Thread.{
  Ptr, null, Threads, Sched, write, set_next, set_prev, unlink, scheduler_remove_thread,
}
use prismatic_os.Kernel.Thread.Queue.{Links, IsQueue}

-- The links of any thread after `t` is unlinked, where `t` is not its own neighbour.
module _ (th : Threads) (t : Ptr) (apart_prev : (th t).prev ≢ t)
    (apart_next : (th t).next ≢ t) where
  unlink-next :
      (a : Ptr)
      → a ≢ null
      → (unlink th t a).next
        ≡ (if a == t then null else if a == (th t).prev then (th t).next else (th a).next)
  unfolding unlink set_next set_prev write
  unlink-next a ne = ground arith

  unlink-prev :
      (a : Ptr)
      → a ≢ null
      → (unlink th t a).prev
        ≡ (if a == t then null else if a == (th t).next then (th t).prev else (th a).prev)
  unfolding unlink set_next set_prev write
  unlink-prev a ne = ground arith

-- The test of `prev` tells whether the thread is in front.
head_moves :
    (th : Threads) (p t : Ptr) (xs : List Ptr)
    → Links th null p xs
    → has t xs ≡ true
    → (if p == t then (th t).next else p) ≡ (if (th t).prev != null then p else (th t).next)
head_moves th p t xs l m = elim (prev-mem (λ a. (th a).next) (λ a. (th a).prev) null p t xs l m) [
  | inl (e, back) ↦ ground arith
  | inr (ne, inside) ↦ ground (arith, nonzero)
]
  where
    nonzero : has (th t).prev xs ≡ true → (th t).prev ≢ null
    nonzero i z = cc (
        sym (has-null (λ a. (th a).next) (λ a. (th a).prev) null p xs l)
        ∙ ap (λ a. has a xs) (sym z)
        ∙ i)

-- Removing a queued thread, wherever it stands, leaves the queue of the others in their order,
-- linked both ways, and the thread with no links.
pub scheduler_remove_thread-IsQueue :
    (s : Sched) (t : Ptr) (xs : List Ptr)
    → IsQueue s xs
    → has t xs ≡ true
    → IsQueue (scheduler_remove_thread s t) (erase t xs)
      × (((scheduler_remove_thread s t).threads t).next ≡ null)
      × (((scheduler_remove_thread s t).threads t).prev ≡ null)
unfolding scheduler_remove_thread
scheduler_remove_thread-IsQueue s t xs l m =
    let no_null =
      has-null (λ a. (s.threads a).next) (λ a. (s.threads a).prev) null s.ready_queue xs l in
    let ne : t ≢ null = λ e. cc (sym no_null ∙ ap (λ z. has z xs) (sym e) ∙ m) in
    let (ap_prev, ap_next) =
      apart (λ a. (s.threads a).next) (λ a. (s.threads a).prev) null s.ready_queue t xs l no_null
        m in
    let nonnull = eq_false_of_ne t null ne in
    rw nonnull (
      subst (λ p. Links (unlink s.threads t) null p (erase t xs))
          (head_moves s.threads s.ready_queue t xs l m)
          (Links-erase (λ a. (s.threads a).next) (λ a. (s.threads a).prev)
            (λ a. (unlink s.threads t a).next) (λ a. (unlink s.threads t a).prev) t ap_prev ap_next
            (unlink-next s.threads t ap_prev ap_next) (unlink-prev s.threads t ap_prev ap_next) null
            s.ready_queue xs l no_null m),
      ground (arith, unlink-next s.threads t ap_prev ap_next t ne),
      ground (arith, unlink-prev s.threads t ap_prev ap_next t ne),
    )
