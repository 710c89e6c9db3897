-- ===== src/Web/Packed/Table.antt =====
-- The packed files are a table: whatever their contents are.
use pico_rfu.Prelude.{
  ℕ, zero, suc, ◌≡◌, ◌≢◌, ◌↔◌, refl, ap, sym, ◌∙◌, List, [], ◌∷◌, some, Bool, true, ◌&&◌, not,
  arith, ◌==◌,
}
use pico_rfu.Prelude.{go, get_elem?, same_bytes, same_bytes_self}
use pico_rfu.Web.Packed.{PackedFile, packed_files, mg_unlist, mg_unpack}
use pico_rfu.Web.Packed.Lookup.{
  NoNul, IsTable, empty, entry, found, mg_unpack-mg_unlist, mg_unpack-found,
}

abbrev pub no_nul : List ℕ → Bool
no_nul [] = true
no_nul (x ∷ xs) = not (x == 0) && no_nul xs

abbrev unlisted : List ℕ → List PackedFile → Bool
unlisted name [] = true
unlisted name (f ∷ fs) = not (same_bytes name f.name) && unlisted name fs

abbrev is_table : List PackedFile → Bool
is_table [] = true
is_table (f ∷ fs) = no_nul f.name && (unlisted f.name fs && is_table fs)

both : (a b : Bool) → (a && b) ≡ true → (a ≡ true) × (b ≡ true)
both a b h = ground arith

pub no_nul-NoNul : (xs : List ℕ) → no_nul xs ≡ true → NoNul xs
no_nul-NoNul [] h = tt
no_nul-NoNul (x ∷ xs) h =
    let (ne, rest) = both (not (x == 0)) (no_nul xs) h in (first ne, no_nul-NoNul xs rest)
  where
    first : not (x == 0) ≡ true → x ≢ 0
    first k = ground arith

unlisted_lem :
    (name : List ℕ) (fs : List PackedFile) (i : ℕ) (g : PackedFile)
    → unlisted name fs ≡ true
    → get_elem? fs i ≡ some g
    → name ≢ g.name
unlisted_lem name [] i g h e = absurd (cc)
unlisted_lem name (f ∷ fs) zero g h e = λ same.
    let (ne, rest) = both (not (same_bytes name f.name)) (unlisted name fs) h in
    let there : f ≡ g = cc e in
    let equal : same_bytes name f.name ≡ true =
      ap (same_bytes name) (ap (λ (x : PackedFile). x.name) there ∙ sym same)
      ∙ same_bytes_self name in
    cc (ne, ap not equal)
unlisted_lem name (f ∷ fs) (suc i) g h e =
    unlisted_lem name fs i g (both (not (same_bytes name f.name)) (unlisted name fs) h).1 e

is_table-IsTable : (fs : List PackedFile) → is_table fs ≡ true → IsTable fs
is_table-IsTable [] h = empty
is_table-IsTable (f ∷ fs) h =
    let (nul, rest) = both (no_nul f.name) (unlisted f.name fs && is_table fs) h in
    let (apart, table) = both (unlisted f.name fs) (is_table fs) rest in
    entry f (no_nul-NoNul f.name nul) (λ i g e. unlisted_lem f.name fs i g apart e)
      (is_table-IsTable fs table)

packed_files-IsTable : (v1 v2 v3 v4 v5 v6 : List ℕ) → IsTable (packed_files v1 v2 v3 v4 v5 v6)
packed_files-IsTable v1 v2 v3 v4 v5 v6 = is_table-IsTable (packed_files v1 v2 v3 v4 v5 v6) refl

-- Whatever the files contain: for a name without NUL, `mg_unpack` finds a result in the table of
-- the site exactly if the result is the data, the size without the final NUL, and the time of an
-- entry whose name is the one that `mg_unlist` gives at its index.
pub packed_files-found :
    (v1 v2 v3 v4 v5 v6 name : List ℕ) (r : List ℕ × ℕ × ℕ)
    → NoNul name
    → let fs = packed_files v1 v2 v3 v4 v5 v6 in
      (mg_unpack fs name ≡ some r) ↔ (
        (i : ℕ) × (f : PackedFile) × (get_elem? fs i ≡ some f)
        × (mg_unlist fs i ≡ go (some name))
        × (r ≡ found f))
packed_files-found v1 v2 v3 v4 v5 v6 name r n = (
  λ e.
      let (i, f, at, same, is) = mg_unpack-found fs name r table n e in
      (i, f, at, listed i f at same, is),
  λ (i, f, at, l, is).
      let (l', hit) = mg_unpack-mg_unlist fs i f table at in
      let same : f.name ≡ name = cc (l, l') in
      ap (mg_unpack fs) (sym same) ∙ hit ∙ ap some (sym is),
)
  where
    fs : List PackedFile
    fs = packed_files v1 v2 v3 v4 v5 v6

    table : IsTable fs
    table = packed_files-IsTable v1 v2 v3 v4 v5 v6

    listed :
        (i : ℕ) (f : PackedFile)
        → get_elem? fs i ≡ some f
        → f.name ≡ name
        → mg_unlist fs i ≡ go (some name)
    listed i f at same = (mg_unpack-mg_unlist fs i f table at).0 ∙ ap (λ x. go (some x)) same
