-- ===== src/Text/Separated.antt =====
-- Two texts with a separator between them.
use Prim.Native.Char.{Char, code}
use Prim.Native.String.{◌++◌ as ◌<>◌}
use text.Mathlib.TextLemmas.{append_cancel_left, cons-append, nil-append}
use agent_ship.Prelude.{ℕ, String, ◌≡◌, sym, ap, ◌∙◌, Bool, true, ◌∷◌}
use agent_ship.Text.{split_at, lacks, split_at-append}

-- A separator of one character, in front of a text.
pub single-append : (c : Char) (t : String) → String.◌∷◌ c "" <> t ≡ String.◌∷◌ c t
single-append c t = cons-append c "" t ∙ ap (String.◌∷◌ c) (nil-append t)

-- A text that lacks the separator, then the separator and any text, determines both sides.
pub separated-injective :
    (is_sep : ℕ → Bool) (c : Char) (a a' b b' : String)
    → is_sep (code c) ≡ true
    → lacks is_sep a ≡ true
    → lacks is_sep a' ≡ true
    → a <> (String.◌∷◌ c "" <> b) ≡ a' <> (String.◌∷◌ c "" <> b')
    → (a ≡ a') × (b ≡ b')
separated-injective is_sep c a a' b b' hc la la' e = (heads, tails)
  where
    split :
        (x y : String)
        → lacks is_sep x ≡ true
        → split_at is_sep (x <> (String.◌∷◌ c "" <> y)) ≡ x ∷ split_at is_sep y
    split x y l =
        ap (λ t. split_at is_sep (x <> t)) (single-append c y) ∙ split_at-append is_sep x c y l hc

    joined : a ∷ split_at is_sep b ≡ a' ∷ split_at is_sep b'
    joined = sym (split a b la) ∙ ap (split_at is_sep) e ∙ split a' b' la'

    heads : a ≡ a'
    heads = cc joined

    tails : b ≡ b'
    tails =
        append_cancel_left (String.◌∷◌ c "") b b'
          (append_cancel_left a _ _ (e ∙ ap (λ x. x <> (String.◌∷◌ c "" <> b')) (sym heads)))
