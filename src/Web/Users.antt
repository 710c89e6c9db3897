-- ===== src/Web/Users.antt =====
-- ProjectFiles/include/net.h: `authenticate`. What `mg_http_creds` writes to the two buffers enters
-- as `name` and `pass`, up to their NULs.
use pico_rfu.Prelude.{
  ℕ, ◌≡◌, ◌≢◌, ◌⊎◌, inl, inr, refl, ap, sym, ◌∙◌, List, [], ◌∷◌, Bool, true, false, not,
}
use pico_rfu.Prelude.{
  ◌&&◌, Option, none, some, arith, codes, is_empty, same_bytes, same_bytes_iff, same_bytes_self,
}
use pico_rfu.Prelude.{if◌then◌else◌, Bool-cases}

pub record User : Type 0 where
  pub name : List ℕ
  pub pass : List ℕ
  pub access_token : List ℕ

abbrev pub user_of : List ℕ → List ℕ → List ℕ → User
user_of name pass token = record { name = name; pass = pass; access_token = token }

-- The table `users`, without the NULL entry that ends it.
abbrev pub users : List User
users =
    user_of (codes "admin") (codes "admin") (codes "admin_token")
    ∷ user_of (codes "user1") (codes "user1") (codes "user1_token")
    ∷ user_of (codes "user2") (codes "user2") (codes "user2_token")
    ∷ []

-- The loops: the first user that passes the test.
unfoldable pub first_user : (User → Bool) → List User → Option User
first_user test [] = none
first_user test (u ∷ us) = let rest = first_user test us in if test u then some u else rest

abbrev pub by_password : List ℕ → List ℕ → User → Bool
by_password name pass u = same_bytes name u.name && same_bytes pass u.pass

abbrev pub by_token : List ℕ → User → Bool
by_token pass u = same_bytes pass u.access_token

unfoldable pub authenticate : List User → List ℕ → List ℕ → Option User
authenticate table name pass =
    if not (is_empty name) && not (is_empty pass)
    then first_user (by_password name pass) table
    else if is_empty name
    then first_user (by_token pass) table
    else none

abbrev pub InTable : User → List User → Type 0
InTable u [] = ⊥
InTable u (v ∷ vs) = (u ≡ v) ⊎ InTable u vs

first_user_sound :
    (test : User → Bool) (us : List User) (u : User)
    → first_user test us ≡ some u
    → InTable u us × (test u ≡ true)
unfolding first_user
first_user_sound test [] u h = absurd (cc)
first_user_sound test (v ∷ vs) u h = elim (Bool-cases (test v)) [
  | inl y ↦ let same : v ≡ u = ground (arith, y) in (inl (sym same), ap test (sym same) ∙ y)
  | inr n ↦ let (found, t) = first_user_sound test vs u (ground (arith, n)) in (inr found, t)
]

-- Whoever is authenticated is a user of the table, who gave the name and password, neither empty, or
-- who gave no name and the access token.
pub authenticate_sound :
    (table : List User) (name pass : List ℕ) (u : User)
    → authenticate table name pass ≡ some u
    → InTable u table
      × (((name ≡ u.name) × (pass ≡ u.pass) × (name ≢ []) × (pass ≢ []))
          ⊎ ((name ≡ []) × (pass ≡ u.access_token)))
unfolding authenticate
authenticate_sound table [] pass u h =
    let (found, t) = first_user_sound (by_token pass) table u h in
    (found, inr (refl, (same_bytes_iff pass u.access_token).0 t))
authenticate_sound table (c ∷ cs) [] u h = absurd (cc)
authenticate_sound table (c ∷ cs) (p ∷ ps) u h =
    let (found, t) = first_user_sound (by_password (c ∷ cs) (p ∷ ps)) table u h in
    (
      found,
      inl (
        (same_bytes_iff (c ∷ cs) u.name).0 (ground arith),
        (same_bytes_iff (p ∷ ps) u.pass).0 (ground arith),
        ground arith,
        ground arith,
      ),
    )

first_user_complete :
    (test : User → Bool) (us : List User) (u : User)
    → InTable u us
    → test u ≡ true
    → first_user test us ≢ none
unfolding first_user
first_user_complete test [] u h t e = h
first_user_complete test (v ∷ vs) u (inl same) t e = cc (ap test same, t)
first_user_complete test (v ∷ vs) u (inr later) t e =
    ground (arith, first_user_complete test vs u later t)

is_empty_not : (xs : List ℕ) → xs ≢ [] → is_empty xs ≡ false
is_empty_not [] h = absurd (h refl)
is_empty_not (x ∷ xs) h = refl

-- Whoever gives the name and password of a user of the table, where neither is empty, or gives that
-- user's token alone, is let in.
pub authenticate_complete :
    (table : List User) (u : User)
    → InTable u table
    → u.name ≢ []
    → u.pass ≢ []
    → (authenticate table u.name u.pass ≢ none) × (authenticate table [] u.access_token ≢ none)
unfolding authenticate
authenticate_complete table u h p q = (
  λ e.
      first_user_complete (by_password u.name u.pass) table u h
        (ground (arith, same_bytes_self u.name, same_bytes_self u.pass))
        (ground (arith, is_empty_not u.name p, is_empty_not u.pass q)),
  first_user_complete (by_token u.access_token) table u h (same_bytes_self u.access_token),
)
