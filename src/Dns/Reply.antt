-- ===== src/Dns/Reply.antt =====
-- The reply of `dns_server_process`: the two writes behind the question, in the local buffer.
use pico_rfu.Prelude.{ℕ, ◌+◌, ◌-◌, ◌≤◌, ◌≡◌, refl, ap, sym, ◌∙◌}
use pico_rfu.Prelude.{List, ◌++◌, append_assoc, arith, go}
use pico_rfu.Prelude.{length, length-append}
use pico_rfu.Prelude.{
  take, drop, slice, length-take, length-slice, drop-eq-slice, take-append, take-append-drop,
  splice,
}
use pico_rfu.Prelude.{write-in_range, length-splice, splice-splice, splice-append}
use pico_rfu.Dns.Server.{write_answer, answer_head}
use pico_rfu.Dns.Server.{reply_header, header_size, max_dns_msg_size}

-- The C types: the local buffer, what is copied to it, and an address.
pub record Sized (stack bytes ip : List ℕ) : Type 0 where
  pub stack_size : length stack ≡ max_dns_msg_size
  pub copied : length bytes ≤ max_dns_msg_size
  pub ip_size : length ip ≡ 4

-- The message in the local buffer.
abbrev pub local : List ℕ → List ℕ → List ℕ
local stack bytes = bytes ++ drop (length bytes) stack

-- The reply to a message whose question ends at `ptr`.
abbrev pub reply_to : List ℕ → ℕ → List ℕ → List ℕ
reply_to msg ptr ip =
    take 2 msg
    ++ (reply_header ++ (slice msg header_size (ptr - header_size) ++ (answer_head ++ ip)))

-- The two writes into a message in parts, and what is sent of it.
overwritten :
    (id header question old rest ip : List ℕ) (ptr : ℕ)
    → length id ≡ 2
    → length header ≡ 10
    → length old ≡ 16
    → length ip ≡ 4
    → ptr ≡ 12 + length question
    → take (ptr + 16) (
        splice
          (splice (id ++ (header ++ (question ++ (old ++ rest)))) ptr (answer_head ++ ip))
          2
          reply_header)
      ≡ id ++ (reply_header ++ (question ++ (answer_head ++ ip)))
overwritten id header question old rest ip ptr hi hh ho hp hq =
    ap (λ t. take (ptr + 16) (splice (splice t ptr new) 2 reply_header)) (regroup (old ++ rest))
    ∙ ap (λ t. take (ptr + 16) (splice t 2 reply_header))
        (splice-append (id ++ (header ++ question)) old rest ptr new
          (omega (arith, length-append id (header ++ question), length-append header question))
          (omega arith))
    ∙ ap (λ t. take (ptr + 16) (splice t 2 reply_header)) (sym (regroup (new ++ rest)))
    ∙ ap (take (ptr + 16))
        (splice-append id header (question ++ (new ++ rest)) 2 reply_header (sym hi) (sym hh))
    ∙ ap (take (ptr + 16)) (tail_out)
    ∙ take-append (id ++ (reply_header ++ (question ++ new))) rest (ptr + 16) (
        omega
          (arith, length-append id (reply_header ++ (question ++ new)), length-append question new))
  where
    new : List ℕ
    new = answer_head ++ ip

    regroup : (t : List ℕ) → id ++ (header ++ (question ++ t)) ≡ (id ++ (header ++ question)) ++ t
    regroup t = simp append_assoc

    tail_out :
        id ++ (reply_header ++ (question ++ (new ++ rest)))
        ≡ (id ++ (reply_header ++ (question ++ new))) ++ rest
    tail_out = simp append_assoc

pub write_answer_lem :
    (msg ip : List ℕ) (ptr : ℕ)
    → length msg ≡ max_dns_msg_size
    → length ip ≡ 4
    → header_size ≤ ptr
    → ptr + 16 ≤ max_dns_msg_size
    → write_answer msg ptr ip ≡ go (reply_to msg ptr ip)
unfolding write_answer
write_answer_lem msg ip ptr h k ge le =
    rw
      (
        write-in_range msg ptr answer_head (omega arith),
        write-in_range (splice msg ptr answer_head) (ptr + 12) ip (omega (arith, size₁)),
        splice-splice msg ptr answer_head ip (ptr + 12) (omega arith) refl,
        write-in_range (splice msg ptr (answer_head ++ ip)) 2 reply_header (omega (arith, size₂)),
      )
      (ap (λ t. go (take (ptr + 16) (splice (splice t ptr (answer_head ++ ip)) 2 reply_header)))
          parts
        ∙ ap go (
            overwritten (take 2 msg) (slice msg 2 10) (slice msg 12 (ptr - 12)) (slice msg ptr 16)
              (drop (ptr + 16) msg) ip ptr (omega (arith, length-take 2 msg))
              (length-slice msg 2 10 (omega arith)) (length-slice msg ptr 16 (omega arith)) k
              (omega (arith, length-slice msg 12 (ptr - 12) (omega arith)))))
  where
    size₁ : length (splice msg ptr answer_head) ≡ length msg
    size₁ = length-splice msg ptr answer_head (omega arith)

    size₂ : length (splice msg ptr (answer_head ++ ip)) ≡ length msg
    size₂ = length-splice msg ptr (answer_head ++ ip) (omega arith)

    parts :
        msg
        ≡ take 2 msg
          ++ (slice msg 2 10
              ++ (slice msg 12 (ptr - 12) ++ (slice msg ptr 16 ++ drop (ptr + 16) msg)))
    parts =
        sym (take-append-drop 2 msg)
        ∙ ap (λ t. take 2 msg ++ t) (drop-eq-slice msg 2 10 12 refl)
        ∙ ap (λ t. take 2 msg ++ (slice msg 2 10 ++ t))
            (drop-eq-slice msg 12 (ptr - 12) ptr (omega arith))
        ∙ ap (λ t. take 2 msg ++ (slice msg 2 10 ++ (slice msg 12 (ptr - 12) ++ t)))
            (drop-eq-slice msg ptr 16 (ptr + 16) refl)
