-- ===== src/Web/Events.antt =====
-- ProjectFiles/include/net.h: `event_next`, and the loops that print events and numbers. What
-- `mg_xprintf` prints of an item enters as the pieces: a separator or none, then the item.
use pico_rfu.Prelude.{ℕ, zero, suc, ◌+◌, ◌<◌, ◌≡◌, refl, ap, sym, ◌∙◌, List, [], ◌∷◌, Bool, true}
use pico_rfu.Prelude.{
  false, Option, none, some, arith, get_elem?, length, ◌==◌, if◌then◌else◌, codes,
}
use pico_rfu.Prelude.{drop, drop-drop, get_elem?-drop, ap₂}

pub record Event : Type 0 where
  pub kind : ℕ
  pub prio : ℕ
  pub timestamp : ℕ
  pub text : List ℕ

abbrev pub event_of : ℕ → ℕ → List ℕ → Event
event_of kind prio text = record { kind = kind; prio = prio; timestamp = 0; text = text }

-- The table `s_events`.
abbrev pub s_events : List Event
s_events =
    event_of 0 0 (codes "here goes event 1")
    ∷ event_of 1 2 (codes "event 2...")
    ∷ event_of 2 1 (codes "another event")
    ∷ event_of 1 1 (codes "something happened!")
    ∷ event_of 2 0 (codes "once more...")
    ∷ event_of 2 0 (codes "more again...")
    ∷ event_of 1 1 (codes "oops. it happened again")
    ∷ []

-- `event_next` of a number that is not negative: the event and the next number, or 0.
unfoldable pub event_next : List Event → ℕ → Option (Event × ℕ)
event_next events i = elim (get_elem? events i) [ none ↦ none | some e ↦ some (e, i + 1) ]

-- An item as it is printed: whether a comma stands before it.
abbrev pub Printed : Type 0 → Type 0
Printed A = Bool × A

-- The loop of `print_events`, from number `no` on, once `len` characters are printed; `width` is the
-- number of characters of an event. Each round takes one event.
unfoldable pub print_events : ℕ → List Event → (Event → ℕ) → ℕ → ℕ → List (Printed Event)
unfolding event_next
print_events zero events width i len = []
print_events (suc fuel) events width i len = elim (event_next events i) [
  | none ↦ []
  | some (e, i') ↦
      (if len == 0 then false else true, e)
      ∷ print_events fuel events width i' (len + (if len == 0 then 0 else 1) + width e)
]

-- The loop of `print_int_arr` over the items from index `i` on.
unfoldable pub print_int_arr : {A : Type 0} → ℕ → List A → List (Printed A)
print_int_arr i [] = []
print_int_arr i (x ∷ xs) = (if i == 0 then false else true, x) ∷ print_int_arr (i + 1) xs

-- Items with a comma before each but the first.
abbrev pub with_commas : {A : Type 0} → Bool → List A → List (Printed A)
with_commas comma [] = []
with_commas comma (x ∷ xs) = (comma, x) ∷ with_commas true xs

comma_behind : (len sep w : ℕ) → 0 < w → (if len + sep + w == 0 then false else true) ≡ true
comma_behind len sep w h = ground arith

next_at :
    (events : List Event) (i : ℕ) (e : Event) (rest : List Event)
    → drop i events ≡ e ∷ rest
    → (get_elem? events i ≡ some e) × (drop (i + 1) events ≡ rest)
next_at events i e rest h = (
  ap (get_elem? events) {x = i} {y = i + 0} (omega arith)
      ∙ sym (get_elem?-drop events i 0)
      ∙ ap (λ t. get_elem? t 0) h,
  sym (drop-drop events 1 i) ∙ ap (drop 1) h,
)

none_at : (events : List Event) (i : ℕ) → drop i events ≡ [] → get_elem? events i ≡ none
none_at events i h =
    ap (get_elem? events) {x = i} {y = i + 0} (omega arith)
    ∙ sym (get_elem?-drop events i 0)
    ∙ ap (λ t. get_elem? t 0) h

print_events_from :
    (fuel : ℕ) (events : List Event) (width : Event → ℕ) (i len : ℕ) (rest : List Event)
    → ((e : Event) → 0 < width e)
    → drop i events ≡ rest
    → length rest < fuel
    → print_events fuel events width i len ≡ with_commas (if len == 0 then false else true) rest
unfolding print_events
print_events_from zero events width i len rest w h k = elim k [ ]
print_events_from (suc fuel) events width i len [] w h k = rw (none_at events i h, print_events)
print_events_from (suc fuel) events width i len (e ∷ rest) w h k =
    let (here, behind) = next_at events i e rest h in
    let more = len + (if len == 0 then 0 else 1) + width e in
    let tail = print_events_from fuel events width (i + 1) more rest w behind (omega arith) in
    rw (here, print_events)
      (ap (λ t. (if len == 0 then false else true, e) ∷ t)
        (tail
          ∙ ap (λ b. with_commas b rest)
              (comma_behind len (if len == 0 then 0 else 1) (width e) (w e))))

-- `print_events` prints every event of the table once, in order, with a comma before each but the
-- first, and then ends: a round for each event and one more suffices.
pub print_events_lem :
    (events : List Event) (width : Event → ℕ)
    → ((e : Event) → 0 < width e)
    → print_events (suc (length events)) events width 0 0 ≡ with_commas false events
print_events_lem events width w =
    print_events_from (suc (length events)) events width 0 0 events w refl (omega arith)

print_int_arr_from :
    {A : Type 0} (i : ℕ) (xs : List A) → print_int_arr (suc i) xs ≡ with_commas true xs
unfolding print_int_arr
print_int_arr_from i [] = refl
print_int_arr_from i (x ∷ xs) =
    ap₂ (λ b t. (b, x) ∷ t) {x = if suc i == 0 then false else true} (ground arith)
      (ap (λ n. print_int_arr n xs) {y = suc (suc i)} (omega arith) ∙ print_int_arr_from (suc i) xs)

-- `print_int_arr` prints every number once, in order, with a comma before each but the first.
pub print_int_arr_lem : {A : Type 0} (xs : List A) → print_int_arr 0 xs ≡ with_commas false xs
unfolding print_int_arr
print_int_arr_lem [] = refl
print_int_arr_lem (x ∷ xs) = ap (λ t. (false, x) ∷ t) (print_int_arr_from 0 xs)
