-- ===== src/Dns/Answer.antt =====
-- The reply of `dns_server_process`: it fits the buffer, and it is the answer of RFC 1035.
use pico_rfu.Prelude.{ℕ, ◌+◌, ◌*◌, ◌-◌, ◌≤◌, ◌<◌, ◌≡◌, ◌≢◌, ◌⊎◌, inl, inr, ap, sym, ◌∙◌}
use pico_rfu.Prelude.{List, [], ◌∷◌, ◌++◌, append_assoc, some, arith, go}
use pico_rfu.Prelude.{
  ignore_request, fault, endless, >>=-ne_endless, require-ne_endless, >>=-eq-go, >>=-ne_fault,
  require, require-eq-go, require-ne_fault, length, length-append, length-drop,
}
use pico_rfu.Prelude.{
  take, drop, slice, take-append, drop-append, get_elem?, get_elem?-in_range, leb, leb→le,
}
use pico_rfu.Dns.Server.{check_header, read_u16, skip_question, write_answer, answer, answer_head}
use pico_rfu.Dns.Server.{reply_header, header_size, max_dns_msg_size}
use pico_rfu.Dns.Question.{
  encode_name, IsName, skip_question-le, skip_question-ge, skip_question_none,
}
use pico_rfu.Dns.NameEnds.{NameEnds, skip_question-NameEnds}
use pico_rfu.Dns.Question.{skip_question-ne_endless, skip_question-ne_fault, skip_question-encode}
use pico_rfu.Dns.Reply.{Sized, local, reply_to, write_answer_lem}

module _ (stack bytes ip : List ℕ) (sized : Sized stack bytes ip) where
  local_size : length (local stack bytes) ≡ max_dns_msg_size
  local_size = omega (
    arith,
    sized,
    length-append bytes (drop (length bytes) stack),
    length-drop (length bytes) stack,
  )

  -- Every reply fits the buffer, and is the packet's id, the header of an authoritative answer, the
  -- question, and one address record with the server's address. The question goes four bytes past
  -- the place `p` where the name behind the packet's header ends, or the packet within it.
  pub answer_reply :
      (reply : List ℕ)
      → answer stack bytes ip ≡ go reply
      → (p : ℕ) × NameEnds (local stack bytes) (length bytes) header_size p
        × (p + 4 + 16 ≤ max_dns_msg_size)
        × (header_size ≤ length bytes)
        × (reply ≡ reply_to (local stack bytes) (p + 4) ip)
  unfolding answer
  answer_reply reply h =
      let (_, long, h₁) = >>=-eq-go (require (leb header_size (length bytes))) _ h in
      let (_, _, h₂) = >>=-eq-go (check_header (local stack bytes)) _ h₁ in
      let (ptr, q, h₃) = >>=-eq-go (skip_question (local stack bytes) (length bytes)) _ h₂ in
      let low = skip_question-ge (local stack bytes) (length bytes) ptr q in
      let (p, name, high, four) = skip_question-NameEnds (local stack bytes) (length bytes) ptr q in
      let is : reply ≡ reply_to (local stack bytes) ptr ip = cc (
        h₃,
        write_answer_lem (local stack bytes) ip ptr local_size sized.ip_size (omega arith)
            (omega arith),
      ) in
      (
        p,
        name,
        omega arith,
        leb→le _ _ (require-eq-go _ long),
        is ∙ ap (λ k. reply_to (local stack bytes) k ip) four,
      )

  header_read :
      (i : ℕ) → i < max_dns_msg_size → (b : ℕ) × (get_elem? (local stack bytes) i ≡ some b)
  header_read i h = get_elem?-in_range (local stack bytes) i (omega (arith, local_size))

  check_header-ne_fault : check_header (local stack bytes) ≢ fault
  unfolding check_header read_u16
  check_header-ne_fault =
      let (f, ef) = header_read 2 (omega arith) in
      let (g, eg) = header_read (2 + 1) (omega arith) in
      let (q, eq) = header_read 4 (omega arith) in
      let (r, er) = header_read (4 + 1) (omega arith) in ground (arith, ef, eg, eq, er)

  -- No packet makes the handler access memory outside its buffer, if the variables have their C
  -- sizes.
  pub answer-ne_fault : answer stack bytes ip ≢ fault
  unfolding answer
  answer-ne_fault =
      >>=-ne_fault (require (leb header_size (length bytes))) _ (require-ne_fault _) λ _ _.
        >>=-ne_fault (check_header (local stack bytes)) _ check_header-ne_fault λ _ _.
          >>=-ne_fault (skip_question (local stack bytes) (length bytes)) _
            (skip_question-ne_fault (local stack bytes) (length bytes)
              (omega (arith, local_size, sized)))
            λ ptr q h.
              let low = skip_question-ge (local stack bytes) (length bytes) ptr q in
              let high = skip_question-le (local stack bytes) (length bytes) ptr q in
              cc (
                h,
                write_answer_lem (local stack bytes) ip ptr local_size sized.ip_size (omega arith)
                    (omega arith),
              )

  check_header-ne_endless : check_header (local stack bytes) ≢ endless
  unfolding check_header read_u16
  check_header-ne_endless =
      let (f, ef) = header_read 2 (omega arith) in
      let (g, eg) = header_read (2 + 1) (omega arith) in
      let (q, eq) = header_read 4 (omega arith) in
      let (r, er) = header_read (4 + 1) (omega arith) in ground (arith, ef, eg, eq, er)

  -- The handler comes to an end.
  pub answer-ne_endless : answer stack bytes ip ≢ endless
  unfolding answer
  answer-ne_endless =
      >>=-ne_endless (require (leb header_size (length bytes))) _ (require-ne_endless _) λ _ _.
        >>=-ne_endless (check_header (local stack bytes)) _ check_header-ne_endless λ _ _.
          >>=-ne_endless (skip_question (local stack bytes) (length bytes)) _
            (skip_question-ne_endless (local stack bytes) (length bytes) sized.copied)
            λ ptr q h.
              let low = skip_question-ge (local stack bytes) (length bytes) ptr q in
              let high = skip_question-le (local stack bytes) (length bytes) ptr q in
              cc (
                h,
                write_answer_lem (local stack bytes) ip ptr local_size sized.ip_size (omega arith)
                    (omega arith),
              )

-- A header's six leading bytes: its id, flags and question count.
abbrev pub header_of : ℕ → ℕ → ℕ → ℕ → ℕ → ℕ → List ℕ
header_of a b hi lo c e = a ∷ b ∷ hi ∷ lo ∷ c ∷ e ∷ []

-- A packet whose flags are not those of a standard query, or that has no question, is ignored.
pub answer_refuses :
    (stack ip : List ℕ) (a b hi lo c e : ℕ) (rest : List ℕ)
    → hi < 256
    → lo < 256
    → (8 ≤ hi) ⊎ (c * 256 + e ≡ 0)
    → answer stack (header_of a b hi lo c e ++ rest) ip ≡ ignore_request
unfolding answer check_header read_u16
answer_refuses stack ip a b hi lo c e rest h k (inl refused) = ground arith
answer_refuses stack ip a b hi lo c e rest h k (inr empty) = ground arith

check_header_lem :
    (a b hi lo c e : ℕ) (rest : List ℕ)
    → hi < 8
    → lo < 256
    → 1 ≤ c * 256 + e
    → check_header (header_of a b hi lo c e ++ rest) ≡ go tt
unfolding check_header read_u16
check_header_lem a b hi lo c e rest h k q = ground arith

answer_stages :
    (stack bytes ip : List ℕ) (ptr : ℕ) {r : List ℕ}
    → header_size ≤ length bytes
    → check_header (local stack bytes) ≡ go tt
    → skip_question (local stack bytes) (length bytes) ≡ go ptr
    → write_answer (local stack bytes) ptr ip ≡ go r
    → answer stack bytes ip ≡ go r
unfolding answer
answer_stages stack bytes ip ptr long h q w = ground arith

-- Every standard query with at least one question whose first is for a name of at most 255 bytes,
-- with labels of 1 to 63 bytes, in a packet that fits the buffer, is answered: with its id, its
-- question and the address, whatever other records come behind the question.
pub answer_query :
    (stack ip : List ℕ) (a b hi lo c e : ℕ) (counts kind extra : List ℕ) (labels : List (List ℕ))
    → Sized stack
        (header_of a b hi lo c e ++ (counts ++ (encode_name labels ++ (kind ++ extra))))
        ip
    → hi < 8
    → lo < 256
    → 1 ≤ c * 256 + e
    → length counts ≡ 6
    → length kind ≡ 4
    → IsName labels
    → length (encode_name labels) ≤ 255
    → answer stack
        (header_of a b hi lo c e ++ (counts ++ (encode_name labels ++ (kind ++ extra))))
        ip
      ≡ go (a ∷ b ∷ (reply_header ++ ((encode_name labels ++ kind) ++ (answer_head ++ ip))))
answer_query stack ip a b hi lo c e counts kind extra labels sized h k q hc hk ok le =
    answer_stages stack bytes ip ptr (omega (arith, sizes)) (check_header_lem a b hi lo c e _ h k q)
      (skip_question-encode msg (length bytes) labels (kind ++ (extra ++ unused)) behind ok
        (omega (arith, sizes)) (omega (arith, sized)) le)
      (write_answer_lem msg ip ptr (local_size stack bytes ip sized) sized.ip_size (omega arith)
        (omega arith))
    ∙ ap (λ t. go (a ∷ b ∷ (reply_header ++ (t ++ (answer_head ++ ip))))) question
  where
    bytes : List ℕ
    bytes = header_of a b hi lo c e ++ (counts ++ (encode_name labels ++ (kind ++ extra)))

    unused : List ℕ
    unused = drop (length bytes) stack

    msg : List ℕ
    msg = local stack bytes

    ptr : ℕ
    ptr = header_size + length (encode_name labels) + 4

    sizes : length bytes ≡ 12 + length (encode_name labels) + 4 + length extra
    sizes = omega (
      arith,
      length-append counts (encode_name labels ++ (kind ++ extra)),
      length-append (encode_name labels) (kind ++ extra),
      length-append kind extra,
    )

    behind : drop header_size msg ≡ encode_name labels ++ (kind ++ (extra ++ unused))
    behind =
        ap (drop 6) (append_assoc counts (encode_name labels ++ (kind ++ extra)) unused)
        ∙ drop-append counts _ 6 (sym hc)
        ∙ append_assoc (encode_name labels) (kind ++ extra) unused
        ∙ ap (λ t. encode_name labels ++ t) (append_assoc kind extra unused)

    question : slice msg header_size (ptr - header_size) ≡ encode_name labels ++ kind
    question =
        ap (take (ptr - header_size))
          (behind ∙ sym (append_assoc (encode_name labels) kind (extra ++ unused)))
        ∙ take-append (encode_name labels ++ kind) (extra ++ unused) (ptr - header_size)
            (omega (arith, length-append (encode_name labels) kind))

-- A standard query that is a header and nothing more is answered too, with a question made of the
-- four bytes that the stack held behind it.
pub answer_leaks :
    (stack ip : List ℕ) (a b hi lo c e : ℕ) (counts : List ℕ)
    → Sized stack (header_of a b hi lo c e ++ counts) ip
    → hi < 8
    → lo < 256
    → 1 ≤ c * 256 + e
    → length counts ≡ 6
    → answer stack (header_of a b hi lo c e ++ counts) ip
      ≡ go (a ∷ b ∷ (reply_header ++ (slice stack header_size 4 ++ (answer_head ++ ip))))
answer_leaks stack ip a b hi lo c e counts sized h k q hc =
    answer_stages stack bytes ip 16 (omega arith) (check_header_lem a b hi lo c e _ h k q)
      no_question
      (write_answer_lem msg ip 16 (local_size stack bytes ip sized) sized.ip_size (omega arith)
        (omega arith))
    ∙ ap (λ t. go (a ∷ b ∷ (reply_header ++ (take 4 t ++ (answer_head ++ ip))))) behind
  where
    bytes : List ℕ
    bytes = header_of a b hi lo c e ++ counts

    msg : List ℕ
    msg = local stack bytes

    no_question : skip_question msg (length bytes) ≡ go 16
    no_question = skip_question_none msg (length bytes) (omega arith)

    behind : drop header_size msg ≡ drop header_size stack
    behind =
        drop-append counts _ 6 (sym hc)
        ∙ ap (λ n. drop n stack) {x = length bytes} {y = header_size} (omega arith)
