-- ===== src/Chars/Ranges.antt =====
-- The character classes against ranges of byte values, and against one another. Every byte is
-- checked by evaluation.
use cand_lang_proto.Base.{
  ℕ, zero, suc, ◌<◌, Bool, true, false, not, ◌&&◌, ◌||◌, ◌≡◌, refl, ap, leb, arith, any_eq,
}
use cand_lang_proto.Chars.{
  is_alpha, is_numeric, is_underscore, is_alnumus, is_symbol, is_core_symbol, is_extended_symbol,
  is_whitespace, is_newline, alnumus_characters,
}

-- The test passes for every number under the bound.
passes_under : (ℕ → Bool) → ℕ → Bool
passes_under test zero = true
passes_under test (suc bound) = passes_under test bound && test bound

passes_under_sound :
    (test : ℕ → Bool) (bound c : ℕ) → passes_under test bound ≡ true → c < bound → test c ≡ true
unfolding passes_under
passes_under_sound test zero c h small = absurd (omega arith)
passes_under_sound test (suc bound) c h small =
    ground (arith, passes_under_sound test bound c, ap test {x = bound} {y = c})

abbrev same : Bool → Bool → Bool
same true b = b
same false b = not b

same_sound : (a b : Bool) → same a b ≡ true → a ≡ b
same_sound true true h = refl
same_sound true false h = cc
same_sound false true h = cc
same_sound false false h = refl

abbrev between : ℕ → ℕ → ℕ → Bool
between low high c = leb low c && leb c high

-- Two tests that agree on every byte by evaluation.
agree :
    (p q : ℕ → Bool)
    → passes_under (λ c. same (p c) (q c)) 256 ≡ true
    → (c : ℕ) → c < 256
    → p c ≡ q c
agree p q h c lt = same_sound _ _ (passes_under_sound (λ x. same (p x) (q x)) 256 c h lt)

-- On bytes: the letters are the two ASCII ranges and the digits are theirs; the extended symbols
-- are the upper half; every newline is white space; and no byte can start more than one of a word,
-- a number and white space.
pub classes_lem :
    (c : ℕ)
    → c < 256
    → (is_alpha c ≡ (between b'a' b'z' c || between b'A' b'Z' c))
      × (is_numeric c ≡ between b'0' b'9' c)
      × (is_alnumus c ≡ any_eq alnumus_characters c)
      × (is_symbol c ≡ (is_core_symbol c || is_extended_symbol c))
      × (is_extended_symbol c ≡ between 128 255 c)
      × ((is_newline c && not (is_whitespace c)) ≡ false)
      × ((is_alpha c && is_numeric c) ≡ false)
      × ((is_whitespace c && is_alnumus c) ≡ false)
unfolding passes_under is_alpha is_numeric is_underscore is_alnumus is_symbol is_core_symbol
    is_extended_symbol is_whitespace is_newline
classes_lem c h = (
  agree is_alpha (λ x. between b'a' b'z' x || between b'A' b'Z' x) refl c h,
  agree is_numeric (λ x. between b'0' b'9' x) refl c h,
  agree is_alnumus (λ x. any_eq alnumus_characters x) refl c h,
  agree is_symbol (λ x. is_core_symbol x || is_extended_symbol x) refl c h,
  agree is_extended_symbol (λ x. between 128 255 x) refl c h,
  agree (λ x. is_newline x && not (is_whitespace x)) (λ x. false) refl c h,
  agree (λ x. is_alpha x && is_numeric x) (λ x. false) refl c h,
  agree (λ x. is_whitespace x && is_alnumus x) (λ x. false) refl c h,
)
