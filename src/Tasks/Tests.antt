-- ===== src/Tasks/Tests.antt =====
-- ProjectFiles/main.cpp: the DMX tasks, from the start to the first frame that is written.
use pico_rfu.Prelude.{ℕ, ◌∷◌, [], ◌++◌, ◌≡◌, refl, List, Bool, true, false, inl, Flow, go, arith}
use pico_rfu.Dmx.Device.{Dmx, dmx_class, busy, force_busy, unsafe_write_buffer, copy_from, send_dmx}
use pico_rfu.Tasks.{Shared, send_zero, send, enqueue, zero_frame, polling, writing, freed}
use pico_rfu.Tasks.{TaskRun, Reach, start, by_task, by_other, begin, receive, loop_check, loop_send}
use pico_rfu.Tasks.Whole.{IsWhole}
use pico_rfu.Tasks.Frames.{sent-IsWhole}
use pico_rfu.Tasks.Order.{InOrder, Reach-InOrder}
use pico_rfu.Tasks.Writes.{written_while_sending, frame_is_written, half_sent}

-- The byte behind the array.
abbrev behind : List ℕ
behind = 0 ∷ []

-- The task has taken the first frame.
abbrev taken : Shared
taken = record {
  dmx = dmx_class;
  sending = false;
  ready = false;
  queue = [];
  enqueued = zero_frame ∷ [];
  done = [];
  sent = [];
}

taken_reached : (loops one_core : Bool) → Reach behind loops one_core (polling zero_frame) taken
unfolding send_zero enqueue
taken_reached loops one_core = by_task (by_task start (λ _. refl) begin) (λ _. refl) (receive refl)

free : busy false dmx_class ≡ false
unfolding busy dmx_class
free = refl

abbrev or_class : Flow Dmx → Dmx
or_class (go d) = d
or_class _ = dmx_class

abbrev cleared : Dmx
cleared = or_class (unsafe_write_buffer (zero_frame ++ behind) true dmx_class)

cleared_is : unsafe_write_buffer (zero_frame ++ behind) true dmx_class ≡ go cleared
unfolding unsafe_write_buffer copy_from dmx_class force_busy pico_rfu.Prelude.splice
cleared_is = refl

frame_is_written_example :
    (s' : Shared) × TaskRun behind false true (polling zero_frame) taken freed s'
    × (s'.dmx ≡ force_busy false cleared)
    × (s'.done ≡ zero_frame ∷ [])
    × (s'.queue ≡ [])
    × (s'.sent ≡ [])
frame_is_written_example =
    frame_is_written behind true false zero_frame taken cleared free refl cleared_is

written_while_sending_example :
    (s' : Shared) × Reach behind true true (writing zero_frame 512 1) s' × (s'.sending ≡ true)
written_while_sending_example =
    written_while_sending behind true zero_frame taken (taken_reached true true) free refl

Reach-InOrder_example : InOrder (polling zero_frame) taken
Reach-InOrder_example =
    Reach-InOrder behind true false (polling zero_frame) taken (taken_reached true false)

sent_reached : Reach behind true true (polling zero_frame) (record (send taken) { ready = false })
unfolding send
sent_reached = by_other (by_other (taken_reached true true) (loop_check refl free)) (loop_send refl)

sent-IsWhole_example : IsWhole behind [] (send_dmx dmx_class)
unfolding send
sent-IsWhole_example =
    sent-IsWhole behind true true (polling zero_frame) (record (send taken) { ready = false })
      (send_dmx dmx_class) [] [] (inl refl) sent_reached refl

abbrev or_frame : Flow (List ℕ) → List ℕ
or_frame (go xs) = xs
or_frame _ = []

-- Ten channels are new.
abbrev mixed : List ℕ
mixed = or_frame (copy_from 10 1 (zero_frame ++ behind) dmx_class.dmx_data)

mixed_is : copy_from 10 1 (zero_frame ++ behind) dmx_class.dmx_data ≡ go mixed
unfolding copy_from dmx_class pico_rfu.Prelude.splice
mixed_is = refl

half_sent_example :
    (s' : Shared) × (j : ℕ) × Reach behind true false (writing zero_frame 502 j) s'
    × (s'.sent ≡ mixed ∷ [])
half_sent_example =
    half_sent behind 10 502 zero_frame mixed taken (taken_reached true false) free refl mixed_is
