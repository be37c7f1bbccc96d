-- ===== src/Kernel/Process/Handling.antt =====
-- Sending and handling signals: process_send_signal and process_handle_signals.
use prismatic_os.Base.{
  ℕ, zero, suc, ◌+◌, ◌-◌, ◌≤◌, ◌<◌, ◌≡◌, refl, sym, ap, ◌∙◌, inl, inr, true, false, ◌||◌, List, [],
  ◌∷◌, ◌++◌, map, append-nil, append_assoc, arith, ltb, ◌==◌, ◌!=◌, eq_refl, Bool-cases,
  Option-cases, length, set, length-set,
}
use prismatic_os.Kernel.Thread.{Ptr, null}
use prismatic_os.Kernel.Process.Signals.{
  signals_from, caught, default_state, state_after, lowest_bit-none, lowest_bit-some, caught-cons,
  map-append, length-signals_from,
}
use prismatic_os.Kernel.Process.{
  proc_zombie, World, write, lowest_bit, set_pending, set_state, is_running, is_sleeping,
  send_signal_with, exit_with, default_action, act, process_handle_signals, process_send_signal,
}

-- What handling one signal leaves: the bits and the handlers as they were.
abbrev Acted : World → Ptr → ℕ → World → Type 0
Acted w p signum w' =
    ((w'.procs p).pending_signals ≡ (w.procs p).pending_signals)
    × ((w'.procs p).signal_handlers ≡ (w.procs p).signal_handlers)
    × ((w'.procs p).parent ≡ null)
    × (w'.calls ≡ w.calls ++ map (λ k. (p, k)) (caught (w.procs p).signal_handlers (signum ∷ [])))
    × ((w'.procs p).state ≡ state_after (w.procs p).signal_handlers (w.procs p).state (signum ∷ []))

-- What the handlers of a process leave alone: its own entry, and the list of the handlers called. They
-- may change anything else, other processes and the scheduler included.
abbrev pub Considerate : (World → Ptr → ℕ → World) → Ptr → Type 0
Considerate handler p =
    (w : World) (signum : ℕ)
    → ((handler w p signum).procs p ≡ w.procs p) × ((handler w p signum).calls ≡ w.calls)

module _ (handle : World → Ptr → World) (walk : ℕ) (p : Ptr) (real : (p == null) ≡ false) where
  exit_with-orphan :
      (w : World) (status : ℕ)
      → (w.procs p).parent ≡ null
      → let w' = exit_with handle walk w p status in
        (w'.procs p ≡ record (w.procs p) { state = proc_zombie; exit_code = status })
        × (w'.calls ≡ w.calls)
  unfolding exit_with write
  exit_with-orphan w status orphan =
      let self = eq_refl p in
      elim (Bool-cases (p == w.sched.current_process)) [
        | inl here ↦ rw (real, self, orphan, here, self) (refl, refl)
        | inr away ↦ rw (real, self, orphan, away, self) (refl, refl)
      ]

  default_action-orphan :
      (w : World) (signum : ℕ)
      → (w.procs p).parent ≡ null
      → let w' = default_action handle walk w p signum in
        ((w'.procs p).pending_signals ≡ (w.procs p).pending_signals)
        × ((w'.procs p).signal_handlers ≡ (w.procs p).signal_handlers)
        × ((w'.procs p).parent ≡ null)
        × (w'.calls ≡ w.calls)
        × ((w'.procs p).state ≡ default_state (w.procs p).state signum)
  unfolding default_action set_state write
  default_action-orphan w signum orphan =
      let self = eq_refl p in
      elim (Bool-cases ((signum == 15) || (signum == 2))) [
        | inl e ↦
            let (same, calls) = exit_with-orphan w signum orphan in
            rw e (
              ap (λ q. q.pending_signals) same,
              ap (λ q. q.signal_handlers) same,
              ap (λ q. q.parent) same ∙ orphan,
              calls,
              ap (λ q. q.state) same,
            )
        | inr e ↦ elim (Bool-cases (signum == 9)) [
          | inl f ↦ rw (e, f, self) (refl, refl, orphan, refl, refl)
          | inr f ↦ elim (Bool-cases (signum == 19)) [
            | inl g ↦ rw (e, f, g, self) (refl, refl, orphan, refl, refl)
            | inr g ↦ elim (Bool-cases (signum == 20)) [
              | inl h ↦ elim (Bool-cases (is_sleeping (w.procs p).state)) [
                | inl i ↦ rw (e, f, g, h, i, self) (refl, refl, orphan, refl, refl)
                | inr i ↦ rw (e, f, g, h, i) (refl, refl, orphan, refl, refl)
              ]
              | inr h ↦ rw (e, f, g, h) (refl, refl, orphan, refl, refl)
            ]
          ]
        ]
      ]

  act-orphan :
      (handler : World → Ptr → ℕ → World) (kind : Considerate handler p) (w : World) (signum : ℕ)
      → (w.procs p).parent ≡ null
      → Acted w p signum (act handle walk handler w p signum)
  unfolding act
  act-orphan handler kind w signum orphan =
      elim (Bool-cases ((w.procs p).signal_handlers signum != null)) [
        | inl some_handler ↦
            let w1 : World = record w { calls = w.calls ++ ((p, signum) ∷ []) } in
            let (same, calls) = kind w1 signum in
            rw some_handler (
              ap (λ q. q.pending_signals) same,
              ap (λ q. q.signal_handlers) same,
              ap (λ q. q.parent) same ∙ orphan,
              calls,
              ap (λ q. q.state) same,
            )
        | inr no_handler ↦
            let (bits, handlers, parent, calls, state) = default_action-orphan w signum orphan in
            rw no_handler (bits, handlers, parent, calls ∙ sym (append-nil w.calls), state)
      ]

-- What the loop leaves: no bit, all the calls, and the state.
abbrev Handled : World → Ptr → List ℕ → World → Type 0
Handled w p ks w' =
    (signals_from 1 (w'.procs p).pending_signals ≡ [])
    × (w'.calls ≡ w.calls ++ map (λ k. (p, k)) (caught (w.procs p).signal_handlers ks))
    × ((w'.procs p).state ≡ state_after (w.procs p).signal_handlers (w.procs p).state ks)

-- One round, and then the others.
Handled-cons :
    (w w1 w2 w' : World) (p : Ptr) (k : ℕ) (ks : List ℕ)
    → ((w1.procs p).signal_handlers ≡ (w.procs p).signal_handlers)
    → (w1.calls ≡ w.calls)
    → ((w1.procs p).state ≡ (w.procs p).state)
    → Acted w1 p k w2
    → Handled w2 p ks w'
    → Handled w p (k ∷ ks) w'
Handled-cons w w1 w2 w' p k ks h c st (bits, handlers, parent, calls, state)
      (done, calls', state') =
    let f : ℕ → Ptr × ℕ = λ k'. (p, k') in
    let hs = (w.procs p).signal_handlers in
    let first : w2.calls ≡ w.calls ++ map f (caught hs (k ∷ [])) = calls ∙ rw (c, h) in
    let later : w'.calls ≡ w2.calls ++ map f (caught hs ks) = calls' ∙ rw (handlers, h) in
    let all =
      later
      ∙ ap (λ l. l ++ map f (caught hs ks)) first
      ∙ append_assoc w.calls (map f (caught hs (k ∷ []))) (map f (caught hs ks))
      ∙ ap (λ l. w.calls ++ l) (sym (map-append f (caught hs (k ∷ [])) (caught hs ks)))
      ∙ ap (λ l. w.calls ++ map f l) (sym (caught-cons hs k ks)) in
    (done, all, state' ∙ rw (handlers, state, h, st))

module _ (handler : World → Ptr → ℕ → World) (walk : ℕ) (p : Ptr) (real : (p == null) ≡ false)
    (kind : Considerate handler p) where
  -- One round of the loop, which clears the bit `k`.
  abbrev cleared : World → ℕ → World
  cleared w k = record w { procs = set_pending w.procs p k false }

  cleared_self :
      (w : World) (k : ℕ)
      → (cleared w k).procs p
        ≡ record (w.procs p) { pending_signals = set (w.procs p).pending_signals k false }
  unfolding set_pending write
  cleared_self w k = rw (eq_refl p)

  handled :
      (n : ℕ) (w : World)
      → (w.procs p).parent ≡ null
      → length (signals_from 1 (w.procs p).pending_signals) < n
      → Handled w p
          (signals_from 1 (w.procs p).pending_signals)
          (process_handle_signals handler walk n w p)
  unfolding process_handle_signals
  handled zero w orphan h = absurd (omega arith)
  handled (suc n) w orphan h = elim (Option-cases (lowest_bit (w.procs p).pending_signals)) [
    | inl e ↦
        let nothing = lowest_bit-none 1 (w.procs p).pending_signals e in
        rw (real, process_handle_signals, e, nothing) (refl, sym (append-nil w.calls), refl)
    | inr (k, e) ↦
        let bits = (w.procs p).pending_signals in
        let number : 1 + k ≡ suc k = omega arith in
        let more =
          lowest_bit-some 1 k bits e ∙ ap (λ x. x ∷ signals_from 1 (set bits k false)) number in
        let w1 = cleared w k in
        let self = cleared_self w k in
        let orphan1 = ap (λ q. q.parent) self ∙ orphan in
        let w2 = act (process_handle_signals handler walk n) walk handler w1 p (suc k) in
        let acted =
          act-orphan (process_handle_signals handler walk n) walk p real handler kind w1 (suc k)
            orphan1 in
        let bits2 = acted.0 ∙ ap (λ q. q.pending_signals) self in
        let fewer : length (signals_from 1 (w2.procs p).pending_signals) < n =
          rw bits2 (omega (arith, ap length more)) in
        let rest : Handled w2 p (signals_from 1 (set bits k false))
            (process_handle_signals handler walk n w2 p) =
          rw bits2 at (handled n w2 acted.2 fewer) in
        rw (real, process_handle_signals, e, more)
          (Handled-cons w w1 w2 (process_handle_signals handler walk n w2 p) p (suc k)
            (signals_from 1 (set bits k false)) (ap (λ q. q.signal_handlers) self) refl
            (ap (λ q. q.state) self) acted rest)
  ]

abbrev pub send_all : (World → Ptr → ℕ → World) → (walk n : ℕ) → World → Ptr → List ℕ → World
send_all handler walk n w p [] = w
send_all handler walk n w p (k ∷ ks) =
    send_all handler walk n (process_send_signal handler walk n w p k) p ks

send_asleep :
    (handler : World → Ptr → ℕ → World) (walk n : ℕ) (w : World) (p : Ptr) (signum : ℕ)
    → is_running (w.procs p).state ≡ false
    → let w' = process_send_signal handler walk n w p signum in
      ((w'.procs p).state ≡ (w.procs p).state) × (w'.calls ≡ w.calls)
unfolding process_send_signal send_signal_with set_pending write
send_asleep handler walk n w p signum asleep =
    elim (Bool-cases ((p == null) || ltb signum 1 || ltb 31 signum)) [
      | inl out ↦ rw out (refl, refl)
      | inr within ↦ rw (within, eq_refl p, asleep, eq_refl p) (refl, refl)
    ]

module _ (handler : World → Ptr → ℕ → World) (walk n : ℕ) (w : World) (p : Ptr)
    (real : (p == null) ≡ false) (kind : Considerate handler p) where
  -- A signal from 1 to 31 that is sent to a running process without a parent, with fuel above the 32
  -- bits, where the handlers leave the process's own entry and the list of calls alone: no signal stays pending; the handlers of this signal and of those that were pending are
  -- called in ascending order of the signals; and the state is what the default actions of the
  -- signals without a handler make of it, in the same order.
  pub process_send_signal_lem :
      (signum : ℕ)
      → is_running (w.procs p).state ≡ true
      → (w.procs p).parent ≡ null
      → length (w.procs p).pending_signals ≡ 32
      → 32 < n
      → 1 ≤ signum
      → signum ≤ 31
      → let w' = process_send_signal handler walk n w p signum in
        let handlers = (w.procs p).signal_handlers in
        let signals = signals_from 1 (set (w.procs p).pending_signals (signum - 1) true) in
        (signals_from 1 (w'.procs p).pending_signals ≡ [])
        × (w'.calls ≡ w.calls ++ map (λ k. (p, k)) (caught handlers signals))
        × ((w'.procs p).state ≡ state_after handlers (w.procs p).state signals)
  unfolding process_send_signal send_signal_with set_pending write
  process_send_signal_lem signum running orphan bits fuel low high =
      let range : ((p == null) || ltb signum 1 || ltb 31 signum) ≡ false = ground arith in
      let self = eq_refl p in
      let pending = set (w.procs p).pending_signals (signum - 1) true in
      let w1 : World = record w { procs = set_pending w.procs p (signum - 1) true } in
      let is : w1.procs p ≡ record (w.procs p) { pending_signals = pending } = rw self in
      let sent : Handled w1 p (signals_from 1 (w1.procs p).pending_signals)
          (process_handle_signals handler walk n w1 p) =
        handled handler walk p real kind n w1 (ap (λ q. q.parent) is ∙ orphan) (
          omega (
            arith,
            ap (λ q. length (signals_from 1 q.pending_signals)) is,
            length-signals_from 1 pending,
            length-set (w.procs p).pending_signals (signum - 1) true,
          )) in
      rw (range, self, running) (rw is at sent)

-- Whatever signals are sent to a process that is not running, its state stays as it is and no handler
-- is called: a process that SIGSTOP put to sleep is not woken by SIGCONT.
pub process_send_signal-asleep :
    (handler : World → Ptr → ℕ → World) (walk n : ℕ) (p : Ptr) (signums : List ℕ) (w : World)
    → is_running (w.procs p).state ≡ false
    → let w' = send_all handler walk n w p signums in
      ((w'.procs p).state ≡ (w.procs p).state) × (w'.calls ≡ w.calls)
process_send_signal-asleep handler walk n p [] w asleep = (refl, refl)
process_send_signal-asleep handler walk n p (k ∷ ks) w asleep =
    let (state, calls) = send_asleep handler walk n w p k asleep in
    let (state', calls') =
      process_send_signal-asleep handler walk n p ks (process_send_signal handler walk n w p k)
        (ap is_running state ∙ asleep) in
    (state' ∙ state, calls' ∙ calls)
