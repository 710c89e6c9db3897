-- ===== src/Keys/Effect.antt =====
-- What the commands do to the frame.
use pico_rfu.Prelude.{ℕ, zero, suc, ◌+◌, ◌-◌, ◌%◌, ◌≤◌, ◌<◌, ◌≡◌, refl, ap, sym, subst, ◌∙◌, List}
use pico_rfu.Prelude.{[], ◌∷◌, ◌++◌, Bool, false, ◌&&◌, ◌||◌, some, arith, go, fault}
use pico_rfu.Prelude.{>>=-eq-go, write-in_range, length, get_elem?, length-splice, splice}
use pico_rfu.Prelude.{get_elem?-splice_in, get_elem?-splice_before, get_elem?-splice_after}
use pico_rfu.Prelude.{length-replicate, leb, ltb, ◌==◌, if◌then◌else◌}
use pico_rfu.Keys.Text.{Token, release, and, at, full, thru, number}
use pico_rfu.Keys.Run.{
  State, blank_frame, assign, range, insert, insert_all, step, run, start, process_keys,
}
use pico_rfu.Dmx.Device.{Dmx}
use pico_rfu.Dmx.Buffer.{IsDevice, short_buffer_faults}

abbrev pub elem : ℕ → List ℕ → Bool
elem x [] = false
elem x (y ∷ ys) = x == y || elem x ys

abbrev pub AllBelow : ℕ → List ℕ → Type 0
AllBelow n [] = Unit
AllBelow n (c ∷ cs) = (c < n) × AllBelow n cs

-- Channels that lie in the frame get the value, and nothing else changes.
pub assign_lem :
    (value : ℕ) (cs frame : List ℕ)
    → AllBelow (length frame) cs
    → (frame' : List ℕ) × (assign value cs frame ≡ go frame')
      × (length frame' ≡ length frame)
      × ((j : ℕ) → get_elem? frame' j ≡ (if elem j cs then some value else get_elem? frame j))
unfolding assign
assign_lem value [] frame h = (frame, refl, refl, λ j. refl)
assign_lem value (c ∷ cs) frame h =
    let size = length-splice frame c (value ∷ []) (omega arith) in
    let (frame', done, same, at_each) =
      assign_lem value cs (splice frame c (value ∷ []))
        (subst (λ n. AllBelow n cs) (sym size) h.1) in
    (
      frame',
      rw (write-in_range frame c (value ∷ []) (omega arith)) done,
      same ∙ size,
      λ j.
          at_each j
          ∙ ground (
            arith,
            get_elem?-splice_in frame c 0 (value ∷ []),
            get_elem?-splice_before frame c j (value ∷ []),
            get_elem?-splice_after frame c j (value ∷ []),
          ),
    )

elem-range :
    (j count first : ℕ) → elem j (range count first) ≡ (leb first j && ltb j (first + count))
elem-range j zero first = ground arith
elem-range j (suc count) first = ground (arith, elem-range j count (first + 1))

AllBelow-range : (n count first : ℕ) → first + count ≤ n → AllBelow n (range count first)
AllBelow-range n zero first h = tt
AllBelow-range n (suc count) first h =
    (omega arith, AllBelow-range n count (first + 1) (omega arith))

elem-insert : (x c : ℕ) (xs : List ℕ) → elem x (insert c xs) ≡ (x == c || elem x xs)
elem-insert x c [] = refl
elem-insert x c (y ∷ ys) = ground (arith, elem-insert x c ys)

-- The set has what it had and what was inserted.
pub elem-insert_all :
    (x : ℕ) (cs xs : List ℕ) → elem x (insert_all cs xs) ≡ (elem x cs || elem x xs)
elem-insert_all x [] xs = refl
elem-insert_all x (c ∷ cs) xs =
    ground (arith, elem-insert_all x cs (insert c xs), elem-insert x c xs)

-- Channels of a range, as the code collects them.
abbrev collected : ℕ → ℕ → List ℕ
collected a b = a ∷ range (b - a) (a + 1)

elem-collected : (j a b : ℕ) → a ≤ b → elem j (collected a b) ≡ (leb a j && leb j b)
elem-collected j a b h = ground (arith, elem-range j (b - a) (a + 1))

-- What a command did: the frame by channels, and the set.
pub record Sets (frame captured : List ℕ) (first last value : ℕ) (s : State) : Type 0 where
  pub size : length s.frame ≡ length frame
  pub levels :
      (j : ℕ)
      → get_elem? s.frame j ≡ (if leb first j && leb j last then some value else get_elem? frame j)
  pub held : (j : ℕ) → elem j s.captured ≡ ((leb first j && leb j last) || elem j captured)
  pub spent : s.channels ≡ []

abbrev levelled : List ℕ → List ℕ → ℕ → ℕ → State
levelled frame captured a b = record {
  frame = frame;
  channels = [];
  captured = insert_all (collected a b) captured;
  is_level = false;
  is_thru = false;
}

thru_run :
    (a b : ℕ) (frame captured : List ℕ) (ts : List Token)
    → 1 ≤ b
    → b ≤ 512
    → run (number a ∷ thru ∷ number b ∷ ts) (start frame captured)
      ≡ run ts (record (start frame captured) { channels = collected a b })
unfolding run step
thru_run a b frame captured ts h k = ground arith

at_run :
    (a b l : ℕ) (frame frame' captured : List ℕ)
    → assign (l % 256) (collected a b) frame ≡ go frame'
    → run (at ∷ number l ∷ []) (record (start frame captured) { channels = collected a b })
      ≡ go (levelled frame' captured a b)
unfolding run step
at_run a b l frame frame' captured h = ground (arith, h)

full_run :
    (a b : ℕ) (frame frame' captured : List ℕ)
    → assign 255 (collected a b) frame ≡ go frame'
    → run (at ∷ full ∷ []) (record (start frame captured) { channels = collected a b })
      ≡ go (levelled frame' captured a b)
unfolding run step
full_run a b frame frame' captured h = ground (arith, h)

module _ (a b : ℕ) (frame captured : List ℕ) (sized : length frame ≡ 512) (h : a ≤ b) (p : 1 ≤ b)
    (k : b < 512) where
  levels_set :
      (value : ℕ)
      → (frame' : List ℕ) × (assign value (collected a b) frame ≡ go frame')
        × Sets frame captured a b value (levelled frame' captured a b)
  levels_set value =
      let (frame', done, same, at_each) =
        assign_lem value (collected a b) frame
          (omega arith, AllBelow-range (length frame) (b - a) (a + 1) (omega arith)) in
      (
        frame',
        done,
        record {
          size = same;
          levels = λ j.
              at_each j
              ∙ ap (λ t. if t then some value else get_elem? frame j) (elem-collected j a b h);
          held = λ j.
              elem-insert_all j (collected a b) captured
              ∙ ap (λ t. t || elem j captured) (elem-collected j a b h);
          spent = refl;
        },
      )

  -- `a THRU b AT l`, for `a` up to `b`, a `b` from 1 to 511 and a frame of 512 bytes, gives exactly
  -- the channels from `a` to `b` the level, modulo 256, and captures them.
  pub thru_at :
      (l : ℕ)
      → (s : State) × (run (number a ∷ thru ∷ number b ∷ at ∷ number l ∷ []) (start frame captured)
          ≡ go s)
        × Sets frame captured a b (l % 256) s
  thru_at l =
      let (frame', done, sets) = levels_set (l % 256) in
      (
        levelled frame' captured a b,
        thru_run a b frame captured _ p (omega arith) ∙ at_run a b l frame frame' captured done,
        sets,
      )

  -- `a THRU b AT FULL` does so with the level 255.
  pub thru_at_full :
      (s : State) × (run (number a ∷ thru ∷ number b ∷ at ∷ full ∷ []) (start frame captured)
        ≡ go s)
      × Sets frame captured a b 255 s
  thru_at_full =
      let (frame', done, sets) = levels_set 255 in
      (
        levelled frame' captured a b,
        thru_run a b frame captured _ p (omega arith) ∙ full_run a b frame frame' captured done,
        sets,
      )

-- A level for a single channel behind the frame, such as 512, is a write behind the frame.
pub channel_faults :
    (n l : ℕ) (frame captured : List ℕ)
    → length frame ≤ n
    → run (number n ∷ at ∷ number l ∷ []) (start frame captured) ≡ fault
unfolding run step assign
channel_faults n l frame captured h = ground arith

-- `release` blanks the frame and empties the set, whatever was said before it in the string without
-- a fault, and nothing behind it counts.
pub release_lem :
    (before after : List Token) (s s' : State)
    → run before s ≡ go s'
    → (t : State) × (run (before ++ (release ∷ after)) s ≡ go t)
      × (t.frame ≡ blank_frame)
      × (t.captured ≡ [])
unfolding run
release_lem [] after s s' h = (record s { frame = blank_frame; captured = [] }, refl, refl, refl)
release_lem (release ∷ ts) after s s' h =
    (record s { frame = blank_frame; captured = [] }, refl, refl, refl)
release_lem (and ∷ ts) after s s' h =
    let (s₁, e, h₁) = >>=-eq-go (step and s) _ h in
    let (t, r, f, c) = release_lem ts after s₁ s' h₁ in (t, rw e r, f, c)
release_lem (at ∷ ts) after s s' h =
    let (s₁, e, h₁) = >>=-eq-go (step at s) _ h in
    let (t, r, f, c) = release_lem ts after s₁ s' h₁ in (t, rw e r, f, c)
release_lem (full ∷ ts) after s s' h =
    let (s₁, e, h₁) = >>=-eq-go (step full s) _ h in
    let (t, r, f, c) = release_lem ts after s₁ s' h₁ in (t, rw e r, f, c)
release_lem (thru ∷ ts) after s s' h =
    let (s₁, e, h₁) = >>=-eq-go (step thru s) _ h in
    let (t, r, f, c) = release_lem ts after s₁ s' h₁ in (t, rw e r, f, c)
release_lem (number n ∷ ts) after s s' h =
    let (s₁, e, h₁) = >>=-eq-go (step (number n) s) _ h in
    let (t, r, f, c) = release_lem ts after s₁ s' h₁ in (t, rw e r, f, c)

length-blank_frame : length blank_frame ≡ 512
unfolding blank_frame
length-blank_frame = length-replicate 512 (zero)

-- The buffer that `processKeys` has a device's frame of 513 bytes copied into is one byte short for
-- it, whatever the keys.
pub process_keys_faults :
    (keys captured : List ℕ) (d : Dmx) → IsDevice d → process_keys keys captured d ≡ fault
unfolding process_keys
process_keys_faults keys captured d v =
    rw (short_buffer_faults d blank_frame v length-blank_frame).0
