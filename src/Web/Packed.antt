-- ===== src/Web/Packed.antt =====
-- ProjectFiles/include/net.h: the packed files, and how mongoose's file system looks them up. A
-- name is the codes of its characters, without the final NUL; the contents of the files, `v1` to
-- `v6`, are generated, and a parameter.
pub mod Lookup
pub mod Table
use pico_rfu.Prelude.{
  ◌+◌, ◌%◌, ◌^◌, ℕ, zero, suc, ◌-◌, List, [], ◌∷◌, Option, none, some, ℤ, pos, negsuc, codes,
  length, get_elem?,
}
use pico_rfu.Prelude.{leb, ◌==◌, if◌then◌else◌, Flow, go, fault, Bool, true, false}

-- `struct packed_file`. Its size is that of its data, the NUL behind it included.
pub record PackedFile : Type 0 where
  pub name : List ℕ
  pub data_bytes : List ℕ
  pub mtime : ℕ

abbrev pub packed : List ℕ → List ℕ → ℕ → PackedFile
packed name bytes mtime = record { name = name; data_bytes = bytes; mtime = mtime }

-- The table, without the NULL entry that ends it.
abbrev pub packed_files : (v1 v2 v3 v4 v5 v6 : List ℕ) → List PackedFile
packed_files v1 v2 v3 v4 v5 v6 =
    packed (codes "/web_root/history.min.js") v1 1685038355
    ∷ packed (codes "/web_root/components.js") v2 1685038355
    ∷ packed (codes "/web_root/main.css") v3 1685038355
    ∷ packed (codes "/web_root/bundle.js") v4 1685125037
    ∷ packed (codes "/web_root/index.html") v5 1685038355
    ∷ packed (codes "/web_root/main.js") v6 1685125117
    ∷ []

-- The difference of two characters as an `int`.
abbrev pub difference : ℕ → ℕ → ℤ
difference a b = if leb b a then pos (a - b) else negsuc (b - a - 1)

unfoldable pub scmp : List ℕ → List ℕ → ℤ
scmp [] [] = pos 0
scmp [] (y ∷ ys) = difference 0 y
scmp (x ∷ xs) [] = difference x 0
scmp (x ∷ xs) (y ∷ ys) = let rest = scmp xs ys in if x == y then rest else difference x y

abbrev pub is_zero : ℤ → Bool
is_zero (pos zero) = true
is_zero (pos (suc n)) = false
is_zero (negsuc n) = false

-- `mg_unlist`: the NULL entry has no name, and behind it is no entry.
unfoldable pub mg_unlist : List PackedFile → ℕ → Flow (Option (List ℕ))
mg_unlist [] zero = go none
mg_unlist [] (suc n) = fault
mg_unlist (f ∷ fs) zero = go (some f.name)
mg_unlist (f ∷ fs) (suc n) = mg_unlist fs n

-- `mg_unpack`: the data, the size and the time of the file of a name.
unfoldable pub mg_unpack : List PackedFile → List ℕ → Option (List ℕ × ℕ × ℕ)
mg_unpack [] name = none
mg_unpack (f ∷ fs) name =
    let rest = mg_unpack fs name in
    if is_zero (scmp f.name name)
    then some (f.data_bytes, (length f.data_bytes + 2 ^ 32 - 1) % 2 ^ 32, f.mtime)
    else rest
