-- ===== src/Keys/Run.antt =====
-- ProjectFiles/main.cpp: the loop of `processKeys` over its tokens. `captured` is a `std::set`: its
-- elements in order.
use pico_rfu.Prelude.{
  ℕ, zero, suc, ◌+◌, ◌-◌, ◌%◌, List, [], ◌∷◌, ◌++◌, map, Bool, true, false, ◌&&◌,
}
use pico_rfu.Prelude.{
  Option, none, some, Flow, go, ◌>>=◌, or_fault, write, replicate, leb, ltb, ◌==◌,
}
use pico_rfu.Prelude.{if◌then◌else◌, splice}
use pico_rfu.Keys.Text.{Token, release, and, at, full, thru, number, tokens, classify}
use pico_rfu.Dmx.Device.{Dmx, get_shadow_buff}

-- `memset(dmxFrame, 0, 512)`
unfoldable pub blank_frame : List ℕ
blank_frame = replicate 512 0

pub record State : Type 0 where
  pub frame : List ℕ
  pub channels : List ℕ
  pub captured : List ℕ
  pub is_level : Bool
  pub is_thru : Bool

-- `captured.insert`
abbrev pub insert : ℕ → List ℕ → List ℕ
insert c [] = c ∷ []
insert c (x ∷ xs) =
    let rest = insert c xs in if c == x then x ∷ xs else if ltb c x then c ∷ x ∷ xs else x ∷ rest

abbrev pub insert_all : List ℕ → List ℕ → List ℕ
insert_all [] set = set
insert_all (c ∷ cs) set = insert_all cs (insert c set)

-- `for (auto d : channels) dmxFrame[d] = value`
unfoldable pub assign : ℕ → List ℕ → List ℕ → Flow (List ℕ)
unfolding splice
assign value [] frame = go frame
assign value (d ∷ ds) frame = do frame' ← write frame d (value ∷ []); assign value ds frame'

-- `count` numbers from `first` on
abbrev pub range : ℕ → ℕ → List ℕ
range zero first = []
range (suc count) first = first ∷ range count (first + 1)

-- `channels.back()`, which is undefined if there is none
abbrev pub back? : List ℕ → Option ℕ
back? [] = none
back? (c ∷ []) = some c
back? (c ∷ d ∷ cs) = back? (d ∷ cs)

-- A level: the frame and the set get the channels, and the list is empty again.
abbrev pub set_level : ℕ → State → Flow State
set_level value s = do
  frame' ← assign value s.channels s.frame
  go (record {
    frame = frame';
    channels = [];
    captured = insert_all s.channels s.captured;
    is_level = false;
    is_thru = s.is_thru;
  })

-- The second number of a range.
abbrev pub set_thru : ℕ → State → Flow State
set_thru channel s =
    if leb 1 channel && leb channel 512
    then (do
      last ← or_fault (back? s.channels)
      go (record s { channels = s.channels ++ range (channel - last) (last + 1); is_thru = false }))
    else go (record s { is_thru = false })

-- One round for a token that is not `release`.
unfoldable pub step : Token → State → Flow State
step release s = go s
step and s = go s
step at s = go (record s { is_level = true })
step full s = set_level 255 s
step thru s = go (record s { is_thru = true })
step (number n) s =
    if s.is_level
    then set_level (n % 256) s
    else if s.is_thru
    then set_thru n s
    else go (record s { channels = s.channels ++ (n ∷ []) })

-- The loop; `release` clears the frame and the set, and leaves it.
unfoldable pub run : List Token → State → Flow State
run [] s = go s
run (release ∷ ts) s = go (record s { frame = blank_frame; captured = [] })
run (and ∷ ts) s = do s' ← step and s; run ts s'
run (at ∷ ts) s = do s' ← step at s; run ts s'
run (full ∷ ts) s = do s' ← step full s; run ts s'
run (thru ∷ ts) s = do s' ← step thru s; run ts s'
run (number n ∷ ts) s = do s' ← step (number n) s; run ts s'

abbrev pub start : List ℕ → List ℕ → State
start frame captured = record {
  frame = frame;
  channels = [];
  captured = captured;
  is_level = false;
  is_thru = false;
}

-- `processKeys`: the frame that goes to the queue, and the set.
unfoldable pub process_keys : List ℕ → List ℕ → Dmx → Flow (List ℕ × List ℕ)
process_keys keys captured dmx = do
  frame ← get_shadow_buff blank_frame dmx
  s ← run (map classify (tokens keys)) (start frame captured)
  go (s.frame, s.captured)
