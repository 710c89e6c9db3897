-- ===== src/Keys/Print/Words.antt =====
-- The words of a printed command are its tokens.
use pico_rfu.Prelude.{ℕ, ◌≡◌, ◌≢◌, refl, ap, sym, ◌∙◌, List, [], ◌∷◌, ◌++◌}
use pico_rfu.Prelude.{append_assoc, append-nil, false, arith}
use pico_rfu.Prelude.{if◌then◌else◌, is_empty}
use pico_rfu.Keys.Text.{tokens_from, tokens}
use pico_rfu.Keys.Print.{join, NoSpace, AreWords}

-- A word is gathered into the token that is being read.
gather :
    (w token cs : List ℕ) → NoSpace w → tokens_from token (w ++ cs) ≡ tokens_from (token ++ w) cs
unfolding tokens_from
gather [] token cs h = ap (λ t. tokens_from t cs) (sym (append-nil token))
gather (c ∷ w) token cs h =
    apart c h.0
    ∙ gather w (token ++ (c ∷ [])) cs h.1
    ∙ ap (λ t. tokens_from t cs) (append_assoc token (c ∷ []) w)
  where
    apart :
        (c : ℕ)
        → c ≢ b' '
        → tokens_from token (c ∷ (w ++ cs)) ≡ tokens_from (token ++ (c ∷ [])) (w ++ cs)
    apart c ne = ground arith

flush_word :
    (w : List ℕ) (rest : List (List ℕ))
    → is_empty w ≡ false
    → (if is_empty w then rest else w ∷ rest) ≡ w ∷ rest
flush_word w rest h = rw h

-- The words are the tokens.
pub tokens-join : (ws : List (List ℕ)) → AreWords ws → tokens (join ws) ≡ ws
unfolding tokens
tokens-join [] h = refl
tokens-join (w ∷ []) h =
    ap (tokens_from []) (sym (append-nil w)) ∙ gather w [] [] h.1 ∙ flush_word w [] h.0
tokens-join (w ∷ v ∷ ws) h =
    gather w [] (b' ' ∷ join (v ∷ ws)) h.1
    ∙ flush_word w (tokens_from [] (join (v ∷ ws))) h.0
    ∙ ap (λ t. w ∷ t) (tokens-join (v ∷ ws) h.2)
