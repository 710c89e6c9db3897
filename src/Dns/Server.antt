-- ===== src/Dns/Server.antt =====
-- ProjectFiles/dnsserver/dnsserver.c: `dns_server_process` up to the call that sends the reply.
-- A pointer into `dns_msg` is its offset; `lwip_ntohs` takes the high byte first.
use pico_rfu.Prelude.{ℕ, zero, suc, ◌+◌, ◌*◌, ◌/◌, ◌%◌, ◌^◌, List, [], ◌∷◌, ◌++◌, Option}
use pico_rfu.Prelude.{
  Flow, go, ignore_request, endless, ◌>>=◌, ◌>>◌, require, read, write, length, take, drop,
}
use pico_rfu.Prelude.{leb, ltb, ◌==◌, if◌then◌else◌, splice}

abbrev pub max_dns_msg_size : ℕ
max_dns_msg_size = 300

-- `sizeof(dns_header_t)`: id at 0, flags at 2, the counts at 4, 6, 8 and 10
abbrev pub header_size : ℕ
header_size = 12

-- `dns_server_t`: lwIP's `udp_pcb`, and the address as its four bytes in memory.
pub record Server (Pcb : Type 0) : Type 0 where
  pub udp : Option Pcb
  pub ip : List ℕ

-- `lwip_ntohs` of the field at `at`
unfoldable pub read_u16 : List ℕ → ℕ → Flow ℕ
read_u16 msg at = do hi ← read msg at; lo ← read msg (at + 1); go (hi * 256 + lo)

-- The guards on the header: a query, a standard one, with a question.
unfoldable pub check_header : List ℕ → Flow (Unit {0})
check_header msg = do
  flags ← read_u16 msg 2
  question_count ← read_u16 msg 4
  require (flags / 2 ^ 15 % 2 == 0)
  require (flags / 2 ^ 11 % 16 == 0)
  require (leb 1 question_count)

-- The loop over the labels of the name, from `ptr` on, in a message that ends at `end`, for at most
-- so many tests of its condition.
unfoldable pub skip_labels : ℕ → List ℕ → ℕ → ℕ → Flow ℕ
skip_labels zero msg end ptr = endless
skip_labels (suc fuel) msg end ptr =
    if ltb ptr end
    then (do
      b ← read msg ptr
      if b == 0
          then go (ptr + 1)
          else if ltb 63 b
          then ignore_request
          else skip_labels fuel msg end (ptr + 1 + b))
    else go ptr

-- The place behind the question: its name, at most 255 bytes, and its type and class.
unfoldable pub skip_question : List ℕ → ℕ → Flow ℕ
skip_question msg end = do
  ptr ← skip_labels max_dns_msg_size msg end header_size
  require (leb ptr (header_size + 255))
  go (ptr + 4)

-- The answer: a pointer to the name, type A, class IN, 60 seconds, four bytes of data.
abbrev pub answer_head : List ℕ
answer_head = 0xc0 ∷ header_size ∷ 0 ∷ 1 ∷ 0 ∷ 1 ∷ 0 ∷ 0 ∷ 0 ∷ 60 ∷ 0 ∷ 4 ∷ []

-- The flags QR, AA and RA, one question, one answer, and no other records.
abbrev pub reply_header : List ℕ
reply_header = 0x84 ∷ 0x80 ∷ 0 ∷ 1 ∷ 0 ∷ 1 ∷ 0 ∷ 0 ∷ 0 ∷ 0 ∷ []

-- The reply, where the question ends at `ptr`.
unfoldable pub write_answer : List ℕ → ℕ → List ℕ → Flow (List ℕ)
unfolding splice
write_answer msg ptr ip = do
  m₁ ← write msg ptr answer_head
  m₂ ← write m₁ (ptr + 12) ip
  m₃ ← write m₂ 2 reply_header
  go (take (ptr + 16) m₃)

-- The handler from the bytes that were copied over what the stack held to the reply.
unfoldable pub answer : List ℕ → List ℕ → List ℕ → Flow (List ℕ)
answer stack bytes ip = do
  require (leb header_size (length bytes))
  let msg = bytes ++ drop (length bytes) stack
  check_header msg
  ptr ← skip_question msg (length bytes)
  write_answer msg ptr ip
