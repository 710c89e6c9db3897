-- ===== src/Dns/NameEnds.antt =====
-- Where the question of a message ends.
use pico_rfu.Prelude.{ℕ, zero, suc, ◌+◌, ◌≤◌, ◌<◌, ◌≡◌, ◌≢◌, inl, inr, List, some, none, arith, go}
use pico_rfu.Prelude.{>>=-eq-go, get_elem?, ltb, Bool-cases, Option-cases, subst}
use pico_rfu.Dns.Server.{skip_labels, skip_question, max_dns_msg_size, header_size}

-- Where a name that starts at a place of a message ends, or where the message does before it: a
-- label of 1 to 63 bytes behind its length, and so on up to a length of 0.
pub data NameEnds (msg : List ℕ) (end : ℕ) : ℕ → ℕ → Type 0 where
  cut_off : {ptr : ℕ} → end ≤ ptr → NameEnds msg end ptr ptr
  at_root : {ptr : ℕ} → ptr < end → get_elem? msg ptr ≡ some 0 → NameEnds msg end ptr (ptr + 1)
  after_label :
      {ptr p b : ℕ}
      → ptr < end
      → get_elem? msg ptr ≡ some b
      → 0 < b
      → b ≤ 63
      → NameEnds msg end (ptr + 1 + b) p
      → NameEnds msg end ptr p

-- A round that reads the length of a label.
skip_labels_label :
    (fuel : ℕ) (msg : List ℕ) (end ptr b p : ℕ)
    → ptr < end
    → get_elem? msg ptr ≡ some b
    → 0 < b
    → skip_labels (suc fuel) msg end ptr ≡ go p
    → (b ≤ 63) × (skip_labels fuel msg end (ptr + 1 + b) ≡ go p)
unfolding skip_labels
skip_labels_label fuel msg end ptr b p h e z s = ground (arith, e)

skip_labels_cut :
    (fuel : ℕ) (msg : List ℕ) (end ptr p : ℕ)
    → end ≤ ptr
    → skip_labels (suc fuel) msg end ptr ≡ go p
    → ptr ≡ p
unfolding skip_labels
skip_labels_cut fuel msg end ptr p h s = ground arith

skip_labels_root :
    (fuel : ℕ) (msg : List ℕ) (end ptr p : ℕ)
    → ptr < end
    → get_elem? msg ptr ≡ some 0
    → skip_labels (suc fuel) msg end ptr ≡ go p
    → ptr + 1 ≡ p
unfolding skip_labels
skip_labels_root fuel msg end ptr p h e s = ground (arith, e)

skip_labels_off :
    (fuel : ℕ) (msg : List ℕ) (end ptr p : ℕ)
    → ptr < end
    → get_elem? msg ptr ≡ none
    → skip_labels (suc fuel) msg end ptr ≢ go p
unfolding skip_labels
skip_labels_off fuel msg end ptr p h e = ground (arith, e)

-- Where the loop ends, the name does.
pub skip_labels-NameEnds :
    (fuel : ℕ) (msg : List ℕ) (end ptr p : ℕ)
    → skip_labels fuel msg end ptr ≡ go p
    → NameEnds msg end ptr p
unfolding skip_labels
skip_labels-NameEnds zero msg end ptr p s = absurd (cc)
skip_labels-NameEnds (suc fuel) msg end ptr p s = elim (Bool-cases (ltb ptr end)) [
  | inr done ↦
      subst (NameEnds msg end ptr) (skip_labels_cut fuel msg end ptr p (ground arith) s)
        (cut_off (ground arith))
  | inl more ↦ elim (Option-cases (get_elem? msg ptr)) [
    | inl e ↦ absurd (skip_labels_off fuel msg end ptr p (ground arith) e s)
    | inr (zero, e) ↦
        subst (NameEnds msg end ptr) (skip_labels_root fuel msg end ptr p (ground arith) e s)
          (at_root (ground arith) e)
    | inr (suc b, e) ↦
        let (small, s') =
          skip_labels_label fuel msg end ptr (suc b) p (ground arith) e (omega arith) s in
        after_label (ground arith) e (omega arith) small
          (skip_labels-NameEnds fuel msg end (ptr + 1 + suc b) p s')
  ]
]

-- The question ends four bytes behind its name.
pub skip_question-NameEnds :
    (msg : List ℕ) (end ptr : ℕ)
    → skip_question msg end ≡ go ptr
    → (p : ℕ) × NameEnds msg end header_size p × (p ≤ header_size + 255) × (ptr ≡ p + 4)
unfolding skip_question
skip_question-NameEnds msg end ptr h =
    let (p, e, h₁) = >>=-eq-go (skip_labels max_dns_msg_size msg end header_size) _ h in
    (p, skip_labels-NameEnds max_dns_msg_size msg end header_size p e, ground arith, ground arith)
