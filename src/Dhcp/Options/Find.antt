-- ===== src/Dhcp/Options/Find.antt =====
-- What `opt_find` finds: the options as a list of codes and payloads, against their bytes.
use pico_rfu.Prelude.{ℕ, zero, suc, ◌+◌, ◌*◌, ◌≤◌, ◌<◌, ◌≡◌, ◌≢◌, refl, ap, sym, ◌∙◌, Option, none}
use pico_rfu.Prelude.{
  some, List, [], ◌∷◌, ◌++◌, append_assoc, true, false, arith, Flow, go, fault, endless,
}
use pico_rfu.Prelude.{get_elem?, get_elem?-drop, get_elem?-of_drop, drop-of_drop, drop}
use pico_rfu.Prelude.{length, length-append, ◌==◌, if◌then◌else◌, Bool-cases}
use pico_rfu.Prelude.{==_iff, inl, inr, Option-cases}
use pico_rfu.Dhcp.Options.{find_from, opt_find, opt_end, opt_limit, find_fuel}

-- An option: its code and its payload.
abbrev pub DhcpOption : Type 0
DhcpOption = ℕ × List ℕ

-- RFC 2132: the code, the length of the payload, the payload.
abbrev pub encode : List DhcpOption → List ℕ
encode [] = []
encode ((code, payload) ∷ os) = code ∷ length payload ∷ (payload ++ encode os)

-- The payload of the first option of a code.
abbrev pub payload? : ℕ → List DhcpOption → Option (List ℕ)
payload? cmd [] = none
payload? cmd ((code, payload) ∷ os) = if code == cmd then some payload else payload? cmd os

abbrev pub NoEnd : List DhcpOption → Type 0
NoEnd [] = Unit
NoEnd ((code, payload) ∷ os) = (code ≢ opt_end) × NoEnd os

-- The result `r` of a search in `msg` for the option `cmd`, whose payload is given or absent.
abbrev pub Finds : List ℕ → ℕ → Flow (Option ℕ) → Option (List ℕ) → Type 0
Finds msg cmd r none = r ≡ go none
Finds msg cmd r (some payload) =
    (o : ℕ) × (rest : List ℕ) × (r ≡ go (some o))
    × (drop o msg ≡ cmd ∷ length payload ∷ (payload ++ rest))

==_false : (a b : ℕ) → (a == b) ≡ false → a ≢ b
==_false a b h e = ground arith

-- One round at an option that is not the one sought for.
find_from_step :
    (fuel : ℕ) (msg : List ℕ) (opt cmd i code n : ℕ)
    → i < opt_limit
    → get_elem? msg (opt + i) ≡ some code
    → get_elem? msg (opt + i + 1) ≡ some n
    → code ≢ opt_end
    → code ≢ cmd
    → find_from (suc fuel) msg opt cmd i ≡ find_from fuel msg opt cmd (i + 2 + n)
unfolding find_from
find_from_step fuel msg opt cmd i code n h e f p q = ground arith

find_from_hit :
    (fuel : ℕ) (msg : List ℕ) (opt cmd i : ℕ)
    → i < opt_limit
    → get_elem? msg (opt + i) ≡ some cmd
    → cmd ≢ opt_end
    → find_from (suc fuel) msg opt cmd i ≡ go (some (opt + i))
unfolding find_from
find_from_hit fuel msg opt cmd i h e p = ground arith

find_from_end :
    (fuel : ℕ) (msg : List ℕ) (opt cmd i : ℕ)
    → i < opt_limit
    → get_elem? msg (opt + i) ≡ some opt_end
    → find_from (suc fuel) msg opt cmd i ≡ go none
unfolding find_from
find_from_end fuel msg opt cmd i h e = ground arith

find_from-encode :
    (fuel : ℕ) (msg : List ℕ) (opt cmd i : ℕ) (os : List DhcpOption) (rest : List ℕ)
    → drop (opt + i) msg ≡ encode os ++ (opt_end ∷ rest)
    → NoEnd os
    → i + length (encode os) < opt_limit
    → opt_limit ≤ i + 2 * fuel
    → cmd ≢ opt_end
    → Finds msg cmd (find_from fuel msg opt cmd i) (payload? cmd os)
find_from-encode zero msg opt cmd i os rest e ok h k p = absurd (omega arith)
find_from-encode (suc fuel) msg opt cmd i [] rest e ok h k p =
    find_from_end fuel msg opt cmd i (omega arith) (get_elem?-of_drop msg (opt + i) _ _ e)
find_from-encode (suc fuel) msg opt cmd i ((code, payload) ∷ os) rest e ok h k p =
    elim (Bool-cases (code == cmd)) [
      | inl same ↦ rw same (
        opt + i,
        encode os ++ (opt_end ∷ rest),
        find_from_hit fuel msg opt cmd i (omega arith) (here ∙ ap some (code_eq same)) p,
        bytes
            ∙ ap (λ c. c ∷ length payload ∷ (payload ++ (encode os ++ (opt_end ∷ rest))))
                (code_eq same),
      )
      | inr other ↦
          rw
            (
              other,
              find_from_step fuel msg opt cmd i code (length payload) (omega arith) here next ok.0
                  (λ q. ==_false code cmd other q),
            )
            (find_from-encode fuel msg opt cmd (i + 2 + length payload) os rest
              (drop-of_drop msg (opt + i) (2 + length payload) _ (code ∷ length payload ∷ payload) _
                bytes (omega arith) (omega arith))
              ok.1 (omega (arith, size)) (omega arith) p)
    ]
  where
    bytes :
        drop (opt + i) msg ≡ code ∷ length payload ∷ (payload ++ (encode os ++ (opt_end ∷ rest)))
    bytes = e ∙ ap (λ t. code ∷ length payload ∷ t) (append_assoc payload (encode os) _)

    size : length (payload ++ encode os) ≡ length payload + length (encode os)
    size = length-append payload (encode os)

    here : get_elem? msg (opt + i) ≡ some code
    here = get_elem?-of_drop msg (opt + i) _ _ bytes

    next : get_elem? msg (opt + i + 1) ≡ some (length payload)
    next =
        get_elem?-of_drop msg (opt + i + 1) _ _
          (drop-of_drop msg (opt + i) 1 (opt + i + 1) (code ∷ []) _ bytes (omega arith) refl)

    code_eq : (code == cmd) ≡ true → code ≡ cmd
    code_eq = (==_iff code cmd).0

-- In a message whose options are `os` and end within the 308 bytes that the loop covers, `opt_find`
-- returns the place of the first option of the code, with its payload behind, or NULL if `os` has
-- none.
pub opt_find-encode :
    (msg : List ℕ) (opt cmd : ℕ) (os : List DhcpOption) (rest : List ℕ)
    → drop opt msg ≡ encode os ++ (opt_end ∷ rest)
    → NoEnd os
    → length (encode os) < opt_limit
    → cmd ≢ opt_end
    → Finds msg cmd (opt_find msg opt cmd) (payload? cmd os)
unfolding opt_find
opt_find-encode msg opt cmd os rest e ok h p =
    find_from-encode find_fuel msg opt cmd 0 os rest
      (ap (λ k. drop k msg) {x = opt + 0} (omega arith) ∙ e) ok (omega arith) (omega arith) p

-- Options that run to the last byte that the loop covers, with no end mark: the byte there is the
-- last of the message, and its length is read behind the message.
find_from_over_read :
    (fuel : ℕ) (msg : List ℕ) (opt cmd i : ℕ) (os : List DhcpOption) (code : ℕ)
    → drop (opt + i) msg ≡ encode os ++ (code ∷ [])
    → NoEnd os
    → payload? cmd os ≡ none
    → i + length (encode os) + 1 ≡ opt_limit
    → opt_limit ≤ i + 2 * fuel
    → code ≢ opt_end
    → code ≢ cmd
    → find_from fuel msg opt cmd i ≡ fault
unfolding find_from
find_from_over_read zero msg opt cmd i os code e ok absent h k p q = absurd (omega arith)
find_from_over_read (suc fuel) msg opt cmd i [] code e ok absent h k p q = ground (
  arith,
  get_elem?-of_drop msg (opt + i) _ _ e,
  sym (get_elem?-drop msg (opt + i) 1) ∙ ap (λ t. get_elem? t 1) e,
)
find_from_over_read (suc fuel) msg opt cmd i ((c, payload) ∷ os) code e ok absent h k p q =
    rw (find_from_step fuel msg opt cmd i c (length payload) (omega arith) here next ok.0 other) (
      find_from_over_read fuel msg opt cmd (i + 2 + length payload) os code
        (drop-of_drop msg (opt + i) (2 + length payload) _ (c ∷ length payload ∷ payload) _ bytes
          (omega arith) (omega arith))
        ok.1 rest_absent (omega (arith, length-append payload (encode os))) (omega arith) p q)
  where
    bytes : drop (opt + i) msg ≡ c ∷ length payload ∷ (payload ++ (encode os ++ (code ∷ [])))
    bytes = e ∙ ap (λ t. c ∷ length payload ∷ t) (append_assoc payload (encode os) _)

    here : get_elem? msg (opt + i) ≡ some c
    here = get_elem?-of_drop msg (opt + i) _ _ bytes

    next : get_elem? msg (opt + i + 1) ≡ some (length payload)
    next =
        get_elem?-of_drop msg (opt + i + 1) _ _
          (drop-of_drop msg (opt + i) 1 (opt + i + 1) (c ∷ []) _ bytes (omega arith) refl)

    other : c ≢ cmd
    other = ground (arith, absent)

    rest_absent : payload? cmd os ≡ none
    rest_absent = ground (arith, absent)

-- If the options have no end mark and no option of the code, and end one byte short of the 308
-- bytes that the loop covers, with a last byte that is neither, then `opt_find` reads a length
-- behind the message.
pub opt_find_over_read :
    (msg : List ℕ) (opt cmd : ℕ) (os : List DhcpOption) (code : ℕ)
    → drop opt msg ≡ encode os ++ (code ∷ [])
    → NoEnd os
    → payload? cmd os ≡ none
    → length (encode os) + 1 ≡ opt_limit
    → code ≢ opt_end
    → code ≢ cmd
    → opt_find msg opt cmd ≡ fault
unfolding opt_find
opt_find_over_read msg opt cmd os code e ok absent h p q =
    find_from_over_read find_fuel msg opt cmd 0 os code
      (ap (λ k. drop k msg) {x = opt + 0} (omega arith) ∙ e) ok absent (omega arith) (omega arith) p
      q

find_from_sound :
    (fuel : ℕ) (msg : List ℕ) (opt cmd i o : ℕ)
    → find_from fuel msg opt cmd i ≡ go (some o)
    → (opt ≤ o) × (o < opt + opt_limit) × (get_elem? msg o ≡ some cmd)
unfolding find_from
find_from_sound zero msg opt cmd i o h = absurd (cc)
find_from_sound (suc fuel) msg opt cmd i o h = elim (Option-cases (get_elem? msg (opt + i + 1))) [
  | inl e ↦ ground arith
  | inr (n, e) ↦ ground (arith, find_from_sound fuel msg opt cmd (i + 2 + n) o)
]

-- Whatever the bytes, what `opt_find` returns is a place among the 308 that holds the code.
pub opt_find_sound :
    (msg : List ℕ) (opt cmd o : ℕ)
    → opt_find msg opt cmd ≡ go (some o)
    → (opt ≤ o) × (o < opt + opt_limit) × (get_elem? msg o ≡ some cmd)
unfolding opt_find
opt_find_sound msg opt cmd o h = find_from_sound find_fuel msg opt cmd 0 o h

find_from-ne_endless :
    (fuel : ℕ) (msg : List ℕ) (opt cmd i : ℕ)
    → 0 < fuel
    → opt_limit + 2 ≤ i + 2 * fuel
    → find_from fuel msg opt cmd i ≢ endless
unfolding find_from
find_from-ne_endless zero msg opt cmd i h k = absurd (omega arith)
find_from-ne_endless (suc fuel) msg opt cmd i h k = elim (Option-cases (get_elem? msg (opt + i))) [
  | inl e ↦ ground (arith, e)
  | inr (b, e) ↦ elim (Option-cases (get_elem? msg (opt + i + 1))) [
    | inl e' ↦ ground (arith, e, e')
    | inr (n, e') ↦ ground (arith, e, e', find_from-ne_endless fuel msg opt cmd (i + 2 + n))
  ]
]

find_from_same :
    (fuel fuel' : ℕ) (msg : List ℕ) (opt cmd i : ℕ)
    → 0 < fuel
    → opt_limit + 2 ≤ i + 2 * fuel
    → 0 < fuel'
    → opt_limit + 2 ≤ i + 2 * fuel'
    → find_from fuel msg opt cmd i ≡ find_from fuel' msg opt cmd i
unfolding find_from
find_from_same zero fuel' msg opt cmd i h k h' k' = absurd (omega arith)
find_from_same (suc fuel) zero msg opt cmd i h k h' k' = absurd (omega arith)
find_from_same (suc fuel) (suc fuel') msg opt cmd i h k h' k' =
    elim (Option-cases (get_elem? msg (opt + i))) [
      | inl e ↦ ground (arith, e)
      | inr (b, e) ↦ elim (Option-cases (get_elem? msg (opt + i + 1))) [
        | inl e' ↦ ground (arith, e, e')
        | inr (n, e') ↦ ground (arith, e, e', find_from_same fuel fuel' msg opt cmd (i + 2 + n))
      ]
    ]

-- The loop of `opt_find` comes to an end: from place `i` on, half of what is left of the 308 bytes
-- is enough tests of its condition, with one to leave the loop. Such a number is never used up, and
-- any two give the same.
pub find_from_enough :
    (fuel fuel' : ℕ) (msg : List ℕ) (opt cmd i : ℕ)
    → 0 < fuel
    → opt_limit + 2 ≤ i + 2 * fuel
    → 0 < fuel'
    → opt_limit + 2 ≤ i + 2 * fuel'
    → (find_from fuel msg opt cmd i ≢ endless)
      × (find_from fuel msg opt cmd i ≡ find_from fuel' msg opt cmd i)
find_from_enough fuel fuel' msg opt cmd i h k h' k' =
    (find_from-ne_endless fuel msg opt cmd i h k, find_from_same fuel fuel' msg opt cmd i h k h' k')
