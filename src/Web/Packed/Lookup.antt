-- ===== src/Web/Packed/Lookup.antt =====
-- The lookup finds the files that are listed, and no others.
use pico_rfu.Prelude.{
  ◌+◌, ◌%◌, ◌^◌, ℕ, zero, suc, ◌-◌, ◌≡◌, ◌≢◌, ◌↔◌, refl, ap, ap₂, sym, ◌∙◌, List, [], ◌∷◌, some,
  pos,
}
use pico_rfu.Prelude.{true, false, arith, length, get_elem?, leb, ◌==◌, go, Bool-cases, inl, inr}
use pico_rfu.Prelude.{==_iff, subst}
use pico_rfu.Web.Packed.{PackedFile, difference, scmp, is_zero, mg_unlist, mg_unpack}

-- A C string has no NUL within.
abbrev pub NoNul : List ℕ → Type 0
NoNul [] = Unit {0}
NoNul (x ∷ xs) = (x ≢ 0) × NoNul xs

is_zero-pos : (n : ℕ) → n ≢ 0 → is_zero (pos n) ≡ false
is_zero-pos zero h = absurd (h refl)
is_zero-pos (suc n) h = refl

difference-ne_zero : (a b : ℕ) → a ≢ b → is_zero (difference a b) ≡ false
difference-ne_zero a b h = elim (Bool-cases (leb b a)) [
  | inl y ↦ rw y (is_zero-pos (a - b) (ground arith))
  | inr n ↦ rw n
]

scmp_same : (x y : ℕ) (xs ys : List ℕ) → (x == y) ≡ true → scmp (x ∷ xs) (y ∷ ys) ≡ scmp xs ys
unfolding scmp
scmp_same x y xs ys h = rw h

scmp_apart : (x y : ℕ) (xs ys : List ℕ) → (x == y) ≡ false → scmp (x ∷ xs) (y ∷ ys) ≡ difference x y
unfolding scmp
scmp_apart x y xs ys h = rw h

==_false : (x y : ℕ) → (x == y) ≡ false → x ≢ y
==_false x y h = ground arith

-- The comparison gives 0 for equal strings and for no others.
pub scmp_iff : (xs ys : List ℕ) → NoNul xs → NoNul ys → (is_zero (scmp xs ys) ≡ true) ↔ (xs ≡ ys)
unfolding scmp
scmp_iff [] [] h k = (λ e. refl, λ e. refl)
scmp_iff [] (y ∷ ys) h k =
    (λ e. absurd (cc (e, difference-ne_zero 0 y (λ q. k.0 (sym q)))), λ e. absurd (cc))
scmp_iff (x ∷ xs) [] h k = (λ e. absurd (cc (e, difference-ne_zero x 0 h.0)), λ e. absurd (cc))
scmp_iff (x ∷ xs) (y ∷ ys) h k = elim (Bool-cases (x == y)) [
  | inl same ↦ (
    λ e.
        ap₂ (λ a bs. a ∷ bs) ((==_iff x y).0 same)
          ((scmp_iff xs ys h.1 k.1).0 (sym (ap is_zero (scmp_same x y xs ys same)) ∙ e)),
    λ e. ap is_zero (scmp_same x y xs ys same) ∙ (scmp_iff xs ys h.1 k.1).1 (cc e),
  )
  | inr other ↦ (
    λ e. absurd (
        cc (
          sym (ap is_zero (scmp_apart x y xs ys other)) ∙ e,
          difference-ne_zero x y (==_false x y other),
        )),
    λ e. absurd (==_false x y other (cc e)),
  )
]

-- The names of a table are C strings, and no two are the same.
pub data IsTable : List PackedFile → Type 0 where
  empty : IsTable []
  entry :
      {fs : List PackedFile} (f : PackedFile)
      → NoNul f.name
      → ((i : ℕ) (g : PackedFile) → get_elem? fs i ≡ some g → f.name ≢ g.name)
      → IsTable fs
      → IsTable (f ∷ fs)

abbrev pub found : PackedFile → List ℕ × ℕ × ℕ
found f = (f.data_bytes, (length f.data_bytes + 2 ^ 32 - 1) % 2 ^ 32, f.mtime)

unpack_hit :
    (f : PackedFile) (fs : List PackedFile) (name : List ℕ)
    → is_zero (scmp f.name name) ≡ true
    → mg_unpack (f ∷ fs) name ≡ some (found f)
unfolding mg_unpack
unpack_hit f fs name h = rw h

unpack_miss :
    (f : PackedFile) (fs : List PackedFile) (name : List ℕ)
    → is_zero (scmp f.name name) ≡ false
    → mg_unpack (f ∷ fs) name ≡ mg_unpack fs name
unfolding mg_unpack
unpack_miss f fs name h = rw h

names_ok :
    (fs : List PackedFile) (i : ℕ) (g : PackedFile)
    → IsTable fs
    → get_elem? fs i ≡ some g
    → NoNul g.name
names_ok [] i g v h = absurd (cc)
names_ok (f ∷ fs) zero g (entry _ n apart v) h =
    subst (λ (x : PackedFile). NoNul x.name) {x = f} {y = g} (cc h) n
names_ok (f ∷ fs) (suc i) g (entry _ n apart v) h = names_ok fs i g v h

-- Every name that `mg_unlist` gives is found by `mg_unpack`, with the data of its own entry, the
-- size without the final NUL, and the time.
pub mg_unpack-mg_unlist :
    (fs : List PackedFile) (i : ℕ) (f : PackedFile)
    → IsTable fs
    → get_elem? fs i ≡ some f
    → (mg_unlist fs i ≡ go (some f.name)) × (mg_unpack fs f.name ≡ some (found f))
unfolding mg_unlist
mg_unpack-mg_unlist [] i f v h = absurd (cc)
mg_unpack-mg_unlist (g ∷ fs) zero f (entry _ n apart v) h =
    let same : g ≡ f = cc h in
    (
      ap (λ (x : PackedFile). go (some x.name)) same,
      unpack_hit g fs f.name (
            (scmp_iff g.name f.name n
                (subst (λ (x : PackedFile). NoNul x.name) {x = g} {y = f} same n)).1
              (ap (λ (x : PackedFile). x.name) same))
          ∙ ap (λ (x : PackedFile). some (found x)) same,
    )
mg_unpack-mg_unlist (g ∷ fs) (suc i) f (entry _ n apart v) h =
    let (listed, hit) = mg_unpack-mg_unlist fs i f v h in
    (listed, unpack_miss g fs f.name (missed (names_ok fs i f v h)) ∙ hit)
  where
    missed : NoNul f.name → is_zero (scmp g.name f.name) ≡ false
    missed k = elim (Bool-cases (is_zero (scmp g.name f.name))) [
      | inl y ↦ absurd (apart i f h ((scmp_iff g.name f.name n k).0 y))
      | inr n' ↦ n'
    ]

-- What `mg_unpack` finds is the file of an entry with the name asked for.
pub mg_unpack-found :
    (fs : List PackedFile) (name : List ℕ) (r : List ℕ × ℕ × ℕ)
    → IsTable fs
    → NoNul name
    → mg_unpack fs name ≡ some r
    → (i : ℕ) × (f : PackedFile) × (get_elem? fs i ≡ some f) × (f.name ≡ name) × (r ≡ found f)
unfolding mg_unpack
mg_unpack-found [] name r v k h = absurd (cc)
mg_unpack-found (g ∷ fs) name r (entry _ n apart v) k h =
    elim (Bool-cases (is_zero (scmp g.name name))) [
      | inl y ↦
          let hit : some (found g) ≡ some r = sym (unpack_hit g fs name y) ∙ h in
          (0, g, refl, (scmp_iff g.name name n k).0 y, cc (hit))
      | inr miss ↦
          let (i, f, at, same, e) =
            mg_unpack-found fs name r v k (sym (unpack_miss g fs name miss) ∙ h) in
          (suc i, f, at, same, e)
    ]
