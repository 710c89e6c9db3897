-- ===== src/Dns/Tests.antt =====
-- ProjectFiles/dnsserver on concrete packets.
use pico_rfu.Prelude.{endless, ◌≢◌, ℕ, ◌≡◌, refl, List, [], ◌∷◌, ◌++◌, arith, go}
use pico_rfu.Prelude.{replicate, slice, length, ◌≤◌, ◌+◌}
use pico_rfu.Dns.Server.{
  answer, reply_header, answer_head, header_size, max_dns_msg_size, skip_labels,
}
use pico_rfu.Dns.Question.{encode_name, skip_labels_enough}
use pico_rfu.Dns.NameEnds.{NameEnds}
use pico_rfu.Dns.Reply.{Sized, reply_to, local}
use pico_rfu.Dns.Answer.{header_of, answer_query, answer_leaks, answer_reply}

abbrev pub address : List ℕ
address = 192 ∷ 168 ∷ 4 ∷ 1 ∷ []

abbrev pub old_stack : List ℕ
old_stack = replicate 300 7

abbrev pub name : List (List ℕ)
name = (119 ∷ 119 ∷ 119 ∷ []) ∷ (97 ∷ 46 ∷ []) ∷ []

abbrev pub counts : List ℕ
counts = 0 ∷ 0 ∷ 0 ∷ 0 ∷ 0 ∷ 0 ∷ []

abbrev pub kind : List ℕ
kind = 0 ∷ 1 ∷ 0 ∷ 1 ∷ []

abbrev pub query : List ℕ
query = header_of 18 52 1 0 0 1 ++ (counts ++ (encode_name name ++ (kind ++ [])))

abbrev pub query_reply : List ℕ
query_reply = 18 ∷ 52 ∷ (reply_header ++ ((encode_name name ++ kind) ++ (answer_head ++ address)))

pub query-Sized : Sized old_stack query address
query-Sized = record { stack_size = refl; copied = omega arith; ip_size = refl }

pub query_answered : answer old_stack query address ≡ go query_reply
query_answered =
    answer_query old_stack address 18 52 1 0 0 1 counts kind [] name query-Sized (omega arith)
      (omega arith) (omega arith) refl refl
      (omega arith, omega arith, (omega arith, omega arith, tt)) (omega arith)

answer_query_example : answer old_stack query address ≡ go query_reply
answer_query_example =
    answer_query old_stack address 18 52 1 0 0 1 counts kind [] name query-Sized (omega arith)
      (omega arith) (omega arith) refl refl
      (omega arith, omega arith, (omega arith, omega arith, tt)) (omega arith)

answer_reply_example :
    (p : ℕ) × NameEnds (local old_stack query) (length query) header_size p
    × (p + 4 + 16 ≤ max_dns_msg_size)
    × (header_size ≤ length query)
    × (query_reply ≡ reply_to (local old_stack query) (p + 4) address)
answer_reply_example = answer_reply old_stack query address query-Sized query_reply query_answered

answer_leaks_example :
    answer old_stack (header_of 18 52 1 0 0 1 ++ counts) address
    ≡ go (18 ∷ 52 ∷ (reply_header ++ (slice old_stack header_size 4 ++ (answer_head ++ address))))
answer_leaks_example =
    answer_leaks old_stack address 18 52 1 0 0 1 counts
      (record { stack_size = refl; copied = omega arith; ip_size = refl }) (omega arith)
      (omega arith) (omega arith) refl

skip_labels_enough_example :
    (skip_labels 300 query 22 12 ≢ endless)
    × (skip_labels 300 query 22 12 ≡ skip_labels 11 query 22 12)
skip_labels_enough_example =
    skip_labels_enough 300 11 query 22 12 (omega arith) (omega arith) (omega arith) (omega arith)
