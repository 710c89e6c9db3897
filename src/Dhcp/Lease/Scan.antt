-- ===== src/Dhcp/Lease/Scan.antt =====
-- What the search of DHCPDISCOVER chooses, and what it does to the table.
use pico_rfu.Prelude.{
  ℕ, zero, suc, ◌+◌, ◌-◌, ◌≤◌, ◌<◌, ◌≡◌, ◌≢◌, ◌⊎◌, inl, refl, ap, ◌∙◌, Option, none,
}
use pico_rfu.Prelude.{some, List, [], ◌∷◌, Bool, true, false, ◌||◌, arith, length, get_elem?, ◌==◌}
use pico_rfu.Prelude.{if◌then◌else◌, same_bytes}
use pico_rfu.Dhcp.Lease.{Lease, max_ip, no_mac, expired, scan}

-- The first slot, from number `i` on, that the client has.
abbrev pub slot_of : List ℕ → ℕ → List Lease → Option ℕ
slot_of mac i [] = none
slot_of mac i (l ∷ ls) = if same_bytes l.mac mac then some i else slot_of mac (i + 1) ls

-- A slot that may be given away at the time `t`.
abbrev pub available : ℕ → Lease → Bool
available t l = expired t l || same_bytes l.mac no_mac

abbrev pub first_available : (ℕ → ℕ) → ℕ → List Lease → ℕ
first_available ticks i [] = max_ip
first_available ticks i (l ∷ ls) =
    if available (ticks i) l then i else first_available ticks (i + 1) ls

-- The client's slot, or else the one found before, or else the first that may be given away.
abbrev pub choice : (ℕ → ℕ) → List ℕ → ℕ → ℕ → List Lease → ℕ
choice ticks mac i yi ls = elim (slot_of mac i ls) [
  | some k ↦ k
  | none ↦ if yi == max_ip then first_available ticks i ls else yi
]

-- The search returns the client's slot if it has one, and otherwise the address found before, or
-- else the first slot that is free or expired, or else `max_ip`.
pub scan-eq-choice :
    (ticks : ℕ → ℕ) (mac : List ℕ) (i yi : ℕ) (ls : List Lease)
    → i + length ls ≤ max_ip
    → (scan ticks mac i yi ls).0 ≡ choice ticks mac i yi ls
unfolding scan
scan-eq-choice ticks mac i yi [] h = ground arith
scan-eq-choice ticks mac i yi (l ∷ ls) h = ground (
  arith,
  scan-eq-choice ticks mac (i + 1) i ls,
  scan-eq-choice ticks mac (i + 1) max_ip ls,
  scan-eq-choice ticks mac (i + 1) yi ls,
)

-- A lease of another client that has not expired is left as it is.
pub scan_keeps :
    (ticks : ℕ → ℕ) (mac : List ℕ) (i yi : ℕ) (ls : List Lease) (j : ℕ) (l : Lease)
    → get_elem? ls j ≡ some l
    → expired (ticks (i + j)) l ≡ false
    → get_elem? (scan ticks mac i yi ls).1 j ≡ some l
unfolding scan
scan_keeps ticks mac i yi [] j l h e = absurd (cc)
scan_keeps ticks mac i yi (m ∷ ls) zero l h e =
    ground (arith, ap (λ k. expired (ticks k) l) {x = i + 0} {y = i} (omega arith))
scan_keeps ticks mac i yi (m ∷ ls) (suc j) l h e = ground (
  arith,
  scan_keeps ticks mac (i + 1) i ls j l h moved,
  scan_keeps ticks mac (i + 1) max_ip ls j l h moved,
  scan_keeps ticks mac (i + 1) yi ls j l h moved,
)
  where
    moved : expired (ticks (i + 1 + j)) l ≡ false
    moved = ap (λ k. expired (ticks k) l) {x = i + 1 + j} (omega arith) ∙ e

pub scan-lt :
    (ticks : ℕ → ℕ) (mac : List ℕ) (i yi : ℕ) (ls : List Lease)
    → i + length ls ≤ max_ip
    → yi < max_ip
    → (scan ticks mac i yi ls).0 < max_ip
unfolding scan
scan-lt ticks mac i yi [] h k = k
scan-lt ticks mac i yi (l ∷ ls) h k =
    ground (arith, scan-lt ticks mac (i + 1) i ls, scan-lt ticks mac (i + 1) yi ls)

-- If no address is left, the table is as before: no slot had expired.
pub scan_none :
    (ticks : ℕ → ℕ) (mac : List ℕ) (i : ℕ) (ls : List Lease)
    → i + length ls ≤ max_ip
    → (scan ticks mac i max_ip ls).0 ≡ max_ip
    → (scan ticks mac i max_ip ls).1 ≡ ls
unfolding scan
scan_none ticks mac i [] h e = refl
scan_none ticks mac i (l ∷ ls) h e =
    ground (arith, scan_none ticks mac (i + 1) ls, scan-lt ticks mac (i + 1) i ls)

pub length-scan :
    (ticks : ℕ → ℕ) (mac : List ℕ) (i yi : ℕ) (ls : List Lease)
    → length (scan ticks mac i yi ls).1 ≡ length ls
unfolding scan
length-scan ticks mac i yi [] = refl
length-scan ticks mac i yi (l ∷ ls) = ground (
  arith,
  length-scan ticks mac (i + 1) i ls,
  length-scan ticks mac (i + 1) max_ip ls,
  length-scan ticks mac (i + 1) yi ls,
)

-- The slot is there, and is free or the client's.
abbrev pub usable : List ℕ → Option Lease → Bool
usable mac none = false
usable mac (some l) = same_bytes l.mac mac || same_bytes l.mac no_mac

get_elem?-cons :
    (l : Lease) (ls : List Lease) (i k : ℕ)
    → i + 1 ≤ k
    → get_elem? (l ∷ ls) (k - i) ≡ get_elem? ls (k - (i + 1))
get_elem?-cons l ls i k h = ap (get_elem? (l ∷ ls)) {y = suc (k - (i + 1))} (omega arith)

get_elem?-head : (l : Lease) (ls : List Lease) (i : ℕ) → get_elem? (l ∷ ls) (i - i) ≡ some l
get_elem?-head l ls i = ap (get_elem? (l ∷ ls)) {y = 0} (omega arith)

scan-usable_at :
    (ticks : ℕ → ℕ) (mac : List ℕ) (i yi : ℕ) (ls : List Lease)
    → let (k, ls') = scan ticks mac i yi ls in
      (k ≡ yi) ⊎ ((i ≤ k) × (usable mac (get_elem? ls' (k - i)) ≡ true))
unfolding scan
scan-usable_at ticks mac i yi [] = inl refl
scan-usable_at ticks mac i yi (l ∷ ls) = ground (
  arith,
  scan-usable_at ticks mac (i + 1) i ls,
  scan-usable_at ticks mac (i + 1) max_ip ls,
  scan-usable_at ticks mac (i + 1) yi ls,
  get_elem?-cons l (scan ticks mac (i + 1) i ls).1 i (scan ticks mac (i + 1) i ls).0,
  get_elem?-cons freed (scan ticks mac (i + 1) i ls).1 i (scan ticks mac (i + 1) i ls).0,
  get_elem?-cons l (scan ticks mac (i + 1) max_ip ls).1 i (scan ticks mac (i + 1) max_ip ls).0,
  get_elem?-cons l (scan ticks mac (i + 1) yi ls).1 i (scan ticks mac (i + 1) yi ls).0,
  get_elem?-head l ls i,
  get_elem?-head l (scan ticks mac (i + 1) i ls).1 i,
  get_elem?-head freed (scan ticks mac (i + 1) i ls).1 i,
)
  where
    freed : Lease
    freed = record l { mac = no_mac }

-- The slot that the search returns is free afterwards, or the client's.
pub scan-usable :
    (ticks : ℕ → ℕ) (mac : List ℕ) (ls : List Lease) (k : ℕ)
    → (scan ticks mac 0 max_ip ls).0 ≡ k
    → k ≢ max_ip
    → usable mac (get_elem? (scan ticks mac 0 max_ip ls).1 k) ≡ true
scan-usable ticks mac ls k h e = ground (arith, scan-usable_at ticks mac 0 max_ip ls)
