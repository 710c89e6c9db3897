-- ===== src/Tasks/Order.antt =====
-- The queue: frames are written in the order in which they were put in, and none is lost.
use pico_rfu.Prelude.{ℕ, ◌+◌, ◌≤◌, ◌<◌, ◌≡◌, refl, ap, sym, ◌∙◌, List, [], ◌∷◌, ◌++◌, append_assoc}
use pico_rfu.Prelude.{Bool, inl, inr, Bool-cases, arith, length, length-append, ltb}
use pico_rfu.Prelude.{subst, ltb→lt}
use pico_rfu.Tasks.{Pc, starting, receiving, polling, checked, writing, freed, Shared, enqueue}
use pico_rfu.Tasks.{send_zero, send, TaskStep, OtherStep, Reach, queue_length, zero_frame}
use pico_rfu.Tasks.Bytes.{write_byte_lem}
use pico_rfu.Tasks.{
  start, by_task, by_other, begin, receive, wait, check, mark, write_round, unmark,
}
use pico_rfu.Tasks.{again, send_itself, put, loop_check, loop_send, output_done}

-- The frame that the task has taken and not yet written.
abbrev pub in_hand : Pc → List (List ℕ)
in_hand starting = []
in_hand receiving = []
in_hand (polling f) = f ∷ []
in_hand (checked f) = f ∷ []
in_hand (writing f rounds i) = f ∷ []
in_hand freed = []

pub record InOrder (pc : Pc) (s : Shared) : Type 0 where
  pub kept : s.done ++ (in_hand pc ++ s.queue) ≡ s.enqueued
  pub room : length s.queue ≤ queue_length

-- A frame behind the queue is behind all frames.
behind_all :
    (done hand queue enqueued : List (List ℕ)) (frame : List ℕ)
    → done ++ (hand ++ queue) ≡ enqueued
    → done ++ (hand ++ (queue ++ (frame ∷ []))) ≡ enqueued ++ (frame ∷ [])
behind_all done hand queue enqueued frame h =
    ap (λ t. done ++ t) (sym (append_assoc hand queue (frame ∷ [])))
    ∙ sym (append_assoc done (hand ++ queue) (frame ∷ []))
    ∙ ap (λ t. t ++ (frame ∷ [])) h

enqueue-InOrder :
    (pc : Pc) (frame : List ℕ) (s : Shared)
    → length s.queue < queue_length
    → InOrder pc s
    → InOrder pc (enqueue frame s)
unfolding enqueue
enqueue-InOrder pc frame s h v = record {
  kept = behind_all s.done (in_hand pc) s.queue s.enqueued frame v.kept;
  room = omega (arith, length-append s.queue (frame ∷ []));
}

send_zero-InOrder : (s : Shared) → InOrder starting s → InOrder receiving (send_zero s)
unfolding send_zero enqueue
send_zero-InOrder s v = elim (Bool-cases (ltb (length s.queue) queue_length)) [
  | inl y ↦
      let u = enqueue-InOrder starting zero_frame s (ltb→lt _ _ y) v in
      rw y (record { kept = u.kept; room = u.room })
  | inr n ↦ rw n (record { kept = v.kept; room = v.room })
]

module _ (behind : List ℕ) (loops one_core : Bool) where
  TaskStep-InOrder :
      (pc pc' : Pc) (s s' : Shared)
      → InOrder pc s
      → TaskStep behind loops one_core pc s pc' s'
      → InOrder pc' s'
  unfolding send
  TaskStep-InOrder _ _ s _ v begin = send_zero-InOrder s v
  TaskStep-InOrder _ _ s _ v (receive {f = f} {q = q} e) = record {
    kept = ap (λ t. s.done ++ t) (sym e) ∙ v.kept;
    room = omega (arith, ap length e, v.room);
  }
  TaskStep-InOrder _ _ s _ v (wait e) = v
  TaskStep-InOrder _ _ s _ v (check e) = record { kept = v.kept; room = v.room }
  TaskStep-InOrder _ _ s _ v mark = record { kept = v.kept; room = v.room }
  TaskStep-InOrder _ _ s s' v (write_round {f = f} {rounds = rounds} {i = i} e) =
      let (b, xs, r, w, same) = write_byte_lem (f ++ behind) i s s' e in
      subst (InOrder (writing f rounds (i + 1))) same (record { kept = v.kept; room = v.room })
  TaskStep-InOrder _ _ s _ v (unmark {f = f}) = record {
    kept = append_assoc s.done (f ∷ []) s.queue ∙ v.kept;
    room = v.room;
  }
  TaskStep-InOrder _ _ s _ v (again e) = record { kept = v.kept; room = v.room }
  TaskStep-InOrder _ _ s _ v (send_itself e) = record { kept = v.kept; room = v.room }

  OtherStep-InOrder :
      (pc : Pc) (s s' : Shared)
      → InOrder pc s
      → OtherStep behind loops one_core s s'
      → InOrder pc s'
  unfolding send
  OtherStep-InOrder pc s _ v (put frame h) = enqueue-InOrder pc frame s h v
  OtherStep-InOrder pc s _ v (loop_check h e) = record { kept = v.kept; room = v.room }
  OtherStep-InOrder pc s _ v (loop_send h) = record { kept = v.kept; room = v.room }
  OtherStep-InOrder pc s _ v output_done = record { kept = v.kept; room = v.room }

  -- However the tasks interleave, the frames written, the one that the task has in hand and those
  -- in the queue are all the frames that were ever put into the queue, in that order, and the queue
  -- has at most five.
  pub Reach-InOrder : (pc : Pc) (s : Shared) → Reach behind loops one_core pc s → InOrder pc s
  Reach-InOrder _ _ start = record { kept = refl; room = omega arith }
  Reach-InOrder pc s (by_task {pc = pc₀} {s = s₀} r g t) =
      TaskStep-InOrder pc₀ pc s₀ s (Reach-InOrder pc₀ s₀ r) t
  Reach-InOrder pc s (by_other {s = s₀} r t) = OtherStep-InOrder pc s₀ s (Reach-InOrder pc s₀ r) t
