-- ===== src/Dns/Question.antt =====
-- How far the loop over the labels goes.
use pico_rfu.Prelude.{ℕ, zero, suc, ◌+◌, ◌≤◌, ◌<◌, ◌≡◌, ◌≢◌, inl, inr, ap, ◌∙◌, List}
use pico_rfu.Prelude.{[], ◌∷◌, ◌++◌, append_assoc, arith, go}
use pico_rfu.Prelude.{endless, fault, >>=-eq-go, length, length-append, drop, get_elem?, ltb}
use pico_rfu.Prelude.{get_elem?-in_range, get_elem?-of_drop, drop-of_drop, Bool-cases, Option-cases}
use pico_rfu.Dns.Server.{skip_labels, skip_question, max_dns_msg_size, header_size}

-- The labels of a name, each behind its length, up to the empty one.
abbrev pub encode_name : List (List ℕ) → List ℕ
encode_name [] = 0 ∷ []
encode_name (label ∷ labels) = length label ∷ (label ++ encode_name labels)

-- The lengths that RFC 1035 allows a label.
abbrev pub IsName : List (List ℕ) → Type 0
IsName [] = Unit
IsName (label ∷ labels) = (0 < length label) × (length label ≤ 63) × IsName labels

-- On a message that holds all its bytes, the loop reads no byte behind them.
pub skip_labels-ne_fault :
    (fuel : ℕ) (msg : List ℕ) (end ptr : ℕ)
    → end ≤ length msg
    → skip_labels fuel msg end ptr ≢ fault
unfolding skip_labels
skip_labels-ne_fault zero msg end ptr h = ground arith
skip_labels-ne_fault (suc fuel) msg end ptr h = elim (Bool-cases (ltb ptr end)) [
  | inl more ↦
      let (b, e) = get_elem?-in_range msg ptr (ground arith) in
      ground (arith, e, skip_labels-ne_fault fuel msg end (ptr + 1 + b) h)
  | inr done ↦ ground arith
]

skip_labels-ne_endless :
    (fuel : ℕ) (msg : List ℕ) (end ptr : ℕ)
    → 0 < fuel
    → end < ptr + fuel
    → skip_labels fuel msg end ptr ≢ endless
unfolding skip_labels
skip_labels-ne_endless zero msg end ptr h k = absurd (omega arith)
skip_labels-ne_endless (suc fuel) msg end ptr h k = elim (Option-cases (get_elem? msg ptr)) [
  | inl e ↦ ground (arith, e)
  | inr (b, e) ↦ ground (arith, e, skip_labels-ne_endless fuel msg end (ptr + 1 + b))
]

skip_labels_same :
    (fuel fuel' : ℕ) (msg : List ℕ) (end ptr : ℕ)
    → 0 < fuel
    → end < ptr + fuel
    → 0 < fuel'
    → end < ptr + fuel'
    → skip_labels fuel msg end ptr ≡ skip_labels fuel' msg end ptr
unfolding skip_labels
skip_labels_same zero fuel' msg end ptr h k h' k' = absurd (omega arith)
skip_labels_same (suc fuel) zero msg end ptr h k h' k' = absurd (omega arith)
skip_labels_same (suc fuel) (suc fuel') msg end ptr h k h' k' =
    elim (Option-cases (get_elem? msg ptr)) [
      | inl e ↦ ground (arith, e)
      | inr (b, e) ↦ ground (arith, e, skip_labels_same fuel fuel' msg end (ptr + 1 + b))
    ]

-- The loop over the labels comes to an end: with more tests of its condition than bytes are left,
-- and one at least, it never uses them up, and any two such numbers of tests give the same.
pub skip_labels_enough :
    (fuel fuel' : ℕ) (msg : List ℕ) (end ptr : ℕ)
    → 0 < fuel
    → end < ptr + fuel
    → 0 < fuel'
    → end < ptr + fuel'
    → (skip_labels fuel msg end ptr ≢ endless)
      × (skip_labels fuel msg end ptr ≡ skip_labels fuel' msg end ptr)
skip_labels_enough fuel fuel' msg end ptr h k h' k' =
    (skip_labels-ne_endless fuel msg end ptr h k, skip_labels_same fuel fuel' msg end ptr h k h' k')

pub skip_labels-ge :
    (fuel : ℕ) (msg : List ℕ) (end ptr p : ℕ) → skip_labels fuel msg end ptr ≡ go p → ptr ≤ p
unfolding skip_labels
skip_labels-ge zero msg end ptr p h = ground arith
skip_labels-ge (suc fuel) msg end ptr p h = elim (Option-cases (get_elem? msg ptr)) [
  | inl e ↦ ground (arith, e)
  | inr (b, e) ↦ ground (arith, e, skip_labels-ge fuel msg end (ptr + 1 + b) p)
]

-- A name that stands in the message is skipped, whatever follows it.
pub skip_labels-encode :
    (fuel : ℕ) (msg : List ℕ) (end ptr : ℕ) (labels : List (List ℕ)) (rest : List ℕ)
    → drop ptr msg ≡ encode_name labels ++ rest
    → IsName labels
    → ptr + length (encode_name labels) ≤ end
    → end < ptr + fuel
    → skip_labels fuel msg end ptr ≡ go (ptr + length (encode_name labels))
unfolding skip_labels
skip_labels-encode zero msg end ptr labels rest e ok h k = absurd (omega arith)
skip_labels-encode (suc fuel) msg end ptr [] rest e ok h k =
    ground (arith, get_elem?-of_drop msg ptr 0 rest e)
skip_labels-encode (suc fuel) msg end ptr (label ∷ labels) rest e ok h k = ground (
  arith,
  get_elem?-of_drop msg ptr (length label) _ e,
  length-append label (encode_name labels),
  skip_labels-encode fuel msg end (ptr + 1 + length label) labels rest
      (drop-of_drop msg ptr (1 + length label) (ptr + 1 + length label) (length label ∷ label)
        (encode_name labels ++ rest)
        (e ∙ ap (λ t. length label ∷ t) (append_assoc label (encode_name labels) rest))
        (omega arith) (omega arith))
      ok.2,
)

-- Where the question ends, if the loop comes to an end.
pub skip_question-le :
    (msg : List ℕ) (end ptr : ℕ) → skip_question msg end ≡ go ptr → ptr ≤ header_size + 255 + 4
unfolding skip_question
skip_question-le msg end ptr h =
    let (p, _, h₁) = >>=-eq-go (skip_labels max_dns_msg_size msg end header_size) _ h in
    ground arith

pub skip_question-ge :
    (msg : List ℕ) (end ptr : ℕ) → skip_question msg end ≡ go ptr → header_size + 4 ≤ ptr
unfolding skip_question
skip_question-ge msg end ptr h =
    let (p, e, h₁) = >>=-eq-go (skip_labels max_dns_msg_size msg end header_size) _ h in
    ground (arith, skip_labels-ge max_dns_msg_size msg end header_size p e)

-- The rounds given are enough for a message that fits the buffer.
pub skip_question-ne_endless :
    (msg : List ℕ) (end : ℕ) → end ≤ max_dns_msg_size → skip_question msg end ≢ endless
unfolding skip_question
skip_question-ne_endless msg end h =
    ground (
      arith,
      skip_labels-ne_endless max_dns_msg_size msg end header_size (omega arith) (omega arith),
    )

pub skip_question-ne_fault :
    (msg : List ℕ) (end : ℕ) → end ≤ length msg → skip_question msg end ≢ fault
unfolding skip_question
skip_question-ne_fault msg end h =
    ground (arith, skip_labels-ne_fault max_dns_msg_size msg end header_size h)

-- A question with a name of at most 255 bytes is skipped.
pub skip_question-encode :
    (msg : List ℕ) (end : ℕ) (labels : List (List ℕ)) (rest : List ℕ)
    → drop header_size msg ≡ encode_name labels ++ rest
    → IsName labels
    → header_size + length (encode_name labels) ≤ end
    → end ≤ max_dns_msg_size
    → length (encode_name labels) ≤ 255
    → skip_question msg end ≡ go (header_size + length (encode_name labels) + 4)
unfolding skip_question
skip_question-encode msg end labels rest e ok h k p = ground (
  arith,
  skip_labels-encode max_dns_msg_size msg end header_size labels rest e ok h (omega arith),
)

skip_labels_done :
    (fuel : ℕ) (msg : List ℕ) (end ptr : ℕ)
    → end ≤ ptr
    → skip_labels (suc fuel) msg end ptr ≡ go ptr
unfolding skip_labels
skip_labels_done fuel msg end ptr h = ground arith

-- A message that ends with its header has no name to skip.
pub skip_question_none :
    (msg : List ℕ) (end : ℕ) → end ≡ header_size → skip_question msg end ≡ go (header_size + 4)
unfolding skip_question
skip_question_none msg end h =
    ground (arith, skip_labels_done 299 msg end header_size (omega arith))
