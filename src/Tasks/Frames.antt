-- ===== src/Tasks/Frames.antt =====
-- What goes out: on one core, or without the loop, no send starts from a frame that is half written.
use pico_rfu.Prelude.{ℕ, ◌≡◌, refl, ◌∙◌, List, [], ◌∷◌, ◌++◌}
use pico_rfu.Prelude.{Bool, true, false}
use pico_rfu.Prelude.{inl, inr, ◌⊎◌, subst}
use pico_rfu.Dmx.Device.{dmx_class}
use pico_rfu.Tasks.{Pc, Shared, initial, enqueue}
use pico_rfu.Tasks.{send, TaskStep, OtherStep, Reach}
use pico_rfu.Tasks.{start, by_task, by_other}
use pico_rfu.Tasks.{put, loop_check, loop_send, output_done}
use pico_rfu.Tasks.Whole.{
  nothing, IsWhole, AllWhole, Calm, AtPc, AtPc-same, busy-Calm, TaskStep-AtPc, TaskStep-ready,
  send_dmx-IsWhole,
}

module _ (behind : List ℕ) (loops one_core : Bool) where
  -- Where `dmx_loop` is about to send, nothing is being written, and it never is without the loop.
  abbrev Guarded : Shared → Type 0
  Guarded s = (s.ready ≡ true → Calm behind s) × (loops ≡ false → s.ready ≡ false)

  abbrev Good : Pc → Shared → Type 0
  Good pc s = AtPc behind pc s × AllWhole behind s.done s.sent × Guarded s

  not_ready :
      (s : Shared)
      → (one_core ≡ true) ⊎ (loops ≡ false)
      → (one_core ≡ true → s.ready ≡ false)
      → Guarded s
      → s.ready ≡ false
  not_ready s (inl one) g v = g one
  not_ready s (inr no_loop) g v = v.1 no_loop

  unready-Guarded : (s : Shared) → s.ready ≡ false → Guarded s
  unready-Guarded s h = (λ e. absurd (cc (e, h)), λ l. h)

  TaskStep-Good :
      (pc pc' : Pc) (s s' : Shared)
      → s.ready ≡ false
      → Good pc s
      → TaskStep behind loops one_core pc s pc' s'
      → Good pc' s'
  TaskStep-Good pc pc' s s' h v t =
      let (c, w) = TaskStep-AtPc behind loops one_core pc pc' s s' v.0 v.1 t in
      (c, w, unready-Guarded s' (TaskStep-ready behind loops one_core pc pc' s s' t ∙ h))

  OtherStep-Good :
      (pc : Pc) (s s' : Shared) → Good pc s → OtherStep behind loops one_core s s' → Good pc s'
  unfolding enqueue send
  OtherStep-Good pc s _ (c, v, g) (put frame h) =
      (AtPc-same behind loops one_core pc s.dmx s.done _ _ _ _ _ _ _ _ _ _ c, v, (λ e. g.0 e, g.1))
  OtherStep-Good pc s _ (c, v, g) (loop_check h e) = (
    AtPc-same behind loops one_core pc s.dmx s.done _ _ _ _ _ _ _ _ _ _ c,
    v,
    (λ r. busy-Calm behind loops one_core pc s c e, λ l. absurd (cc (h, l))),
  )
  OtherStep-Good pc s _ (c, v, g) (loop_send h) = (
    AtPc-same behind loops one_core pc s.dmx s.done _ _ _ _ _ _ _ _ _ _ c,
    (send_dmx-IsWhole behind s (g.0 h), v),
    (λ r. absurd (cc (r)), λ l. refl),
  )
  OtherStep-Good pc s _ (c, v, g) output_done =
      (AtPc-same behind loops one_core pc s.dmx s.done _ _ _ _ _ _ _ _ _ _ c, v, (λ e. g.0 e, g.1))

  Reach-Good :
      (pc : Pc) (s : Shared)
      → (one_core ≡ true) ⊎ (loops ≡ false)
      → Reach behind loops one_core pc s
      → Good pc s
  unfolding dmx_class
  Reach-Good _ _ h start = ((nothing, refl), tt, unready-Guarded initial refl)
  Reach-Good pc s h (by_task {pc = pc₀} {s = s₀} r g t) =
      let v = Reach-Good pc₀ s₀ h r in TaskStep-Good pc₀ pc s₀ s (not_ready s₀ h g v.2) v t
  Reach-Good pc s h (by_other {s = s₀} r t) = OtherStep-Good pc s₀ s (Reach-Good pc s₀ h r) t

  -- If the tasks share a core, or there is no `dmx_loop`, then however they interleave, the device
  -- contents at the start of every send are those after some number of whole frames: the first so
  -- many of those that were written, in the order in which they were.
  pub sent-IsWhole :
      (pc : Pc) (s : Shared) (x : List ℕ) (earlier later : List (List ℕ))
      → (one_core ≡ true) ⊎ (loops ≡ false)
      → Reach behind loops one_core pc s
      → s.sent ≡ earlier ++ (x ∷ later)
      → IsWhole behind s.done x
  sent-IsWhole pc s x earlier later h r e =
      pick earlier (subst (AllWhole behind s.done) e (Reach-Good pc s h r).1)
    where
      pick :
          (ys : List (List ℕ))
          → AllWhole behind s.done (ys ++ (x ∷ later))
          → IsWhole behind s.done x
      pick [] v = v.0
      pick (y ∷ ys) v = pick ys v.1
