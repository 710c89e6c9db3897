-- ===== src/Tasks.antt =====
-- ProjectFiles/main.cpp: `dmx_task`, `dmx_loop`, the queue between `processKeys` and them, and the
-- DMX output, as steps that interleave. FreeRTOSConfig.h gives two cores, on which `dmx_loop` and
-- `dmx_task` run at the same time; on one, `dmx_loop` has the higher priority, so that `dmx_task`
-- gets no step between its test and its send.
mod Bytes
pub mod Frames
pub mod Order
mod Whole
pub mod Writes
mod Tests
use pico_rfu.Prelude.{
  ℕ, zero, suc, ◌+◌, ◌<◌, ◌≡◌, List, [], ◌∷◌, ◌++◌, Bool, true, false, Flow, go, fault, ◌>>=◌,
}
use pico_rfu.Prelude.{read, write, replicate, length, ltb, if◌then◌else◌}
use pico_rfu.Dmx.Device.{Dmx, dmx_class, busy, force_busy, send_dmx}

-- `xQueueCreate(5, 512)`
abbrev pub queue_length : ℕ
queue_length = 5

abbrev pub zero_frame : List ℕ
zero_frame = replicate 512 0

-- Where `dmx_task` is: before its loop, at `xQueueReceive`, at the test of `busy`, behind it, in
-- `unsafeWriteBuffer` with so many rounds left at an index, and behind `forceBusy(false)`.
pub data Pc : Type 0 where
  starting : Pc
  receiving : Pc
  polling : List ℕ → Pc
  checked : List ℕ → Pc
  writing : List ℕ → ℕ → ℕ → Pc
  freed : Pc

-- What the tasks share: the device, whether its output is busy, whether `dmx_loop` has found the
-- device free and is about to send, and the queue, its oldest frame first. The other fields record what happened: the frames that were put into the queue, those that
-- were written to the device, and the contents of the device at each send, the last first.
pub record Shared : Type 0 where
  pub dmx : Dmx
  pub sending : Bool
  pub ready : Bool
  pub queue : List (List ℕ)
  pub enqueued : List (List ℕ)
  pub done : List (List ℕ)
  pub sent : List (List ℕ)

abbrev pub initial : Shared
initial = record {
  dmx = dmx_class;
  sending = false;
  ready = false;
  queue = [];
  enqueued = [];
  done = [];
  sent = [];
}

-- `xQueueSend` where there is room.
unfoldable pub enqueue : List ℕ → Shared → Shared
enqueue frame s = record s {
  queue = s.queue ++ (frame ∷ []);
  enqueued = s.enqueued ++ (frame ∷ []);
}

-- `xQueueSend(dmxQueue, zero, 0)` drops the frame if the queue is full.
unfoldable pub send_zero : Shared → Shared
unfolding enqueue
send_zero s = if ltb (length s.queue) queue_length then enqueue zero_frame s else s

-- `sendDMX`
unfoldable pub send : Shared → Shared
send s = record s { sending = true; sent = send_dmx s.dmx ∷ s.sent }

-- `forceBusy`
abbrev pub force : Bool → Shared → Shared
force b s = record s { dmx = force_busy b s.dmx }

-- A round of the loop of `unsafeWriteBuffer`, which reads `data` from the memory `from`.
unfoldable pub write_byte : List ℕ → ℕ → Shared → Flow Shared
write_byte from i s = do
  b ← read from i
  xs ← write s.dmx.dmx_data i (b ∷ [])
  go (record s { dmx = record s.dmx { dmx_data = xs } })

-- The steps of `dmx_task`. `behind` is what lies in memory behind its array `data`: C gives no byte
-- there. `loops` is `rfu_config.dmx_loop`, and `one_core` whether the tasks share a core.
module _ (behind : List ℕ) (loops one_core : Bool) where
  pub data TaskStep : Pc → Shared → Pc → Shared → Type 0 where
    begin : {s : Shared} → TaskStep starting s receiving (send_zero s)
    receive :
        {s : Shared} {f : List ℕ} {q : List (List ℕ)}
        → s.queue ≡ f ∷ q
        → TaskStep receiving s (polling f) (record s { queue = q })
    wait :
        {s : Shared} {f : List ℕ}
        → busy s.sending s.dmx ≡ true
        → TaskStep (polling f) s (polling f) s
    check :
        {s : Shared} {f : List ℕ}
        → busy s.sending s.dmx ≡ false
        → TaskStep (polling f) s (checked f) s
    mark : {s : Shared} {f : List ℕ} → TaskStep (checked f) s (writing f 512 1) (force true s)
    write_round :
        {s s' : Shared} {f : List ℕ} {rounds i : ℕ}
        → write_byte (f ++ behind) i s ≡ go s'
        → TaskStep (writing f (suc rounds) i) s (writing f rounds (i + 1)) s'
    unmark :
        {s : Shared} {f : List ℕ} {i : ℕ}
        → TaskStep (writing f 0 i) s freed (force false (record s { done = s.done ++ (f ∷ []) }))
    again : {s : Shared} → loops ≡ true → TaskStep freed s receiving s
    send_itself : {s : Shared} → loops ≡ false → TaskStep freed s receiving (send s)

  -- The steps of the others: `processKeys` puts a frame into the queue, `dmx_loop` tests and sends,
  -- and the output gets done. A round of `dmx_loop` that finds the device busy changes nothing.
  pub data OtherStep : Shared → Shared → Type 0 where
    put :
        {s : Shared} (frame : List ℕ)
        → length s.queue < queue_length
        → OtherStep s (enqueue frame s)
    loop_check :
        {s : Shared}
        → loops ≡ true
        → busy s.sending s.dmx ≡ false
        → OtherStep s (record s { ready = true })
    loop_send : {s : Shared} → s.ready ≡ true → OtherStep s (record (send s) { ready = false })
    output_done : {s : Shared} → OtherStep s (record s { sending = false })

  pub data Reach : Pc → Shared → Type 0 where
    start : Reach starting initial
    by_task :
        {pc pc' : Pc} {s s' : Shared}
        → Reach pc s
        → (one_core ≡ true → s.ready ≡ false)
        → TaskStep pc s pc' s'
        → Reach pc' s'
    by_other : {pc : Pc} {s s' : Shared} → Reach pc s → OtherStep s s' → Reach pc s'

  -- Steps of `dmx_task` one after the other, with none of the others between.
  pub data TaskRun : Pc → Shared → Pc → Shared → Type 0 where
    done : {pc : Pc} {s : Shared} → TaskRun pc s pc s
    then_step :
        {pc pc' pc'' : Pc} {s s' s'' : Shared}
        → (one_core ≡ true → s.ready ≡ false)
        → TaskStep pc s pc' s'
        → TaskRun pc' s' pc'' s''
        → TaskRun pc s pc'' s''
