-- ===== src/Tasks/Writes.antt =====
-- What the task gets done, and what can happen to it between its test of `busy` and its mark.
use pico_rfu.Prelude.{ℕ, zero, suc, ◌+◌, ◌≡◌, refl, ap, sym, ◌∙◌, List, [], ◌∷◌, ◌++◌, subst}
use pico_rfu.Prelude.{Bool, true, false, go, >>=-eq-go, >>=-go, arith, read, write}
use pico_rfu.Dmx.Device.{Dmx, busy, force_busy, send_dmx, copy_from, unsafe_write_buffer}
use pico_rfu.Tasks.{Pc, polling, writing, freed, Shared}
use pico_rfu.Tasks.{
  send, force, write_byte, Reach, by_task, by_other, check, mark, write_round, unmark,
}
use pico_rfu.Tasks.{loop_check, loop_send, TaskRun, done, then_step}

module _ (behind : List ℕ) (one_core : Bool) where
  -- With the loop, on one core or two: between the task's test of `busy` and its `forceBusy(true)`
  -- `dmx_loop` may start a send, and then the task writes while the output reads the same bytes.
  pub written_while_sending :
      (f : List ℕ) (s : Shared)
      → Reach behind true one_core (polling f) s
      → busy s.sending s.dmx ≡ false
      → s.ready ≡ false
      → (s' : Shared) × Reach behind true one_core (writing f 512 1) s' × (s'.sending ≡ true)
  unfolding send
  written_while_sending f s r free idle =
      let passed = by_task r (λ _. idle) (check free) in
      let sent = by_other (by_other passed (loop_check refl free)) (loop_send refl) in
      (_, by_task sent (λ _. refl) mark, refl)

  module _ (loops : Bool) where
    written : Shared → List ℕ → Shared
    written s xs = record s { dmx = record s.dmx { dmx_data = xs } }

    -- The task's next rounds.
    rounds_run :
        (rounds more i : ℕ) (f xs : List ℕ) (s : Shared)
        → (one_core ≡ true → s.ready ≡ false)
        → copy_from rounds i (f ++ behind) s.dmx.dmx_data ≡ go xs
        → (j : ℕ) × TaskRun behind loops one_core
            (writing f (rounds + more) i)
            s
            (writing f more j)
            (written s xs)
    unfolding copy_from written write_byte
    rounds_run zero more i f xs s idle h =
        let all : more ≡ 0 + more = omega arith in
        let at_once : TaskRun behind loops one_core (writing f more i) s (writing f more i)
            (written s xs) =
          subst (TaskRun behind loops one_core (writing f more i) s (writing f more i))
            (ap (written s) (cc h)) done in
        (
          i,
          subst
              (λ k.
                TaskRun behind loops one_core (writing f k i) s (writing f more i) (written s xs))
              all at_once,
        )
    rounds_run (suc rounds) more i f xs s idle h =
        let (b, e, h₁) = >>=-eq-go (read (f ++ behind) i) _ h in
        let (ys, w, h₂) = >>=-eq-go (write s.dmx.dmx_data i (b ∷ [])) _ h₁ in
        let one_more : suc (rounds + more) ≡ suc rounds + more = omega arith in
        let (j, r) = rounds_run rounds more (i + 1) f xs (written s ys) idle h₂ in
        (
          j,
          subst
              (λ k.
                TaskRun behind loops one_core (writing f k i) s (writing f more j) (written s xs))
              one_more
              (then_step idle
                (write_round (
                  >>=-go (read (f ++ behind) i) _ e ∙ >>=-go (write s.dmx.dmx_data i (b ∷ [])) _ w))
                r),
        )

    TaskRun-append :
        {pc pc' pc'' : Pc} {s s' s'' : Shared}
        → TaskRun behind loops one_core pc s pc' s'
        → TaskRun behind loops one_core pc' s' pc'' s''
        → TaskRun behind loops one_core pc s pc'' s''
    TaskRun-append done r = r
    TaskRun-append (then_step idle t q) r = then_step idle t (TaskRun-append q r)

    pub Reach-TaskRun :
        {pc pc' : Pc} {s s' : Shared}
        → Reach behind loops one_core pc s
        → TaskRun behind loops one_core pc s pc' s'
        → Reach behind loops one_core pc' s'
    Reach-TaskRun r done = r
    Reach-TaskRun r (then_step idle t q) = Reach-TaskRun (by_task r idle t) q

    -- A frame that the task has taken, in any state with the device free and no send about to start,
    -- is written to its end by steps of the task alone, where `unsafeWriteBuffer` of it succeeds:
    -- they lead behind `forceBusy(false)`, to a state whose device is as that function leaves it,
    -- and free; the frame counts as written, the queue is as before, and nothing was sent.
    pub frame_is_written :
        (f : List ℕ) (s : Shared) (d : Dmx)
        → busy s.sending s.dmx ≡ false
        → s.ready ≡ false
        → unsafe_write_buffer (f ++ behind) true s.dmx ≡ go d
        → (s' : Shared) × TaskRun behind loops one_core (polling f) s freed s'
          × (s'.dmx ≡ force_busy false d)
          × (s'.done ≡ s.done ++ (f ∷ []))
          × (s'.queue ≡ s.queue)
          × (s'.sent ≡ s.sent)
    unfolding written force_busy unsafe_write_buffer
    frame_is_written f s d free idle h =
        let (xs, c, e) = >>=-eq-go (copy_from 512 1 (f ++ behind) s.dmx.dmx_data) _ h in
        let (j, r) = rounds_run 512 0 1 f xs (force true s) (λ _. idle) c in
        let same : record s.dmx { dmx_data = xs } ≡ d = cc e in
        (
          _,
          then_step (λ _. idle) (check free)
              (then_step (λ _. idle) mark (TaskRun-append r (then_step (λ _. idle) unmark done))),
          ap (λ (x : Dmx). force_busy false x) same,
          refl,
          refl,
          refl,
        )

module _ (behind : List ℕ) where
  -- With the loop and two cores: `dmx_loop` may find the device free just before the task marks it,
  -- and send when any number of rounds of `unsafeWriteBuffer` are done: what is sent then is the
  -- frame only so far, and the old contents behind it.
  pub half_sent :
      (rounds more : ℕ) (f xs : List ℕ) (s : Shared)
      → Reach behind true false (polling f) s
      → busy s.sending s.dmx ≡ false
      → rounds + more ≡ 512
      → copy_from rounds 1 (f ++ behind) s.dmx.dmx_data ≡ go xs
      → (s' : Shared) × (j : ℕ) × Reach behind true false (writing f more j) s'
        × (s'.sent ≡ xs ∷ s.sent)
  unfolding written force_busy send send_dmx
  half_sent rounds more f xs s r free n h =
      let passed = by_other (by_task r (λ e. absurd (cc e)) (check free)) (loop_check refl free) in
      let marked = by_task passed (λ e. absurd (cc e)) mark in
      let begun : Shared = force true (record s { ready = true }) in
      let (j, run) = rounds_run behind false true rounds more 1 f xs begun (λ e. absurd (cc e)) h in
      let started = subst (λ k. Reach behind true false (writing f k 1) begun) (sym n) marked in
      (_, j, by_other (Reach-TaskRun behind false true started run) (loop_send refl), refl)
