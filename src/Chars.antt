-- ===== src/Chars.antt =====
-- Candi_Compiler/char_traits.hpp: the classes of characters. A `char8_t` is its value, below 256.
-- The arrays of all characters serve nothing else and are left out.
pub mod Ranges
use cand_lang_proto.Base.{ℕ, Bool, ◌||◌, List, ◌++◌, ◌==◌, any_eq, bytes, ◌+◌, ◌∷◌, [], suc, zero}

-- The characters from `first` on, `n` of them.
abbrev run : ℕ → ℕ → List ℕ
run first zero = []
run first (suc n) = first ∷ run (first + 1) n

abbrev pub alphabetic_characters : List ℕ
alphabetic_characters = bytes "abcdefghijklmnopqrstuvwxyzABCDEFGHIJKLMNOPQRSTUVWXYZ"

abbrev pub alnumus_characters : List ℕ
alnumus_characters = bytes "abcdefghijklmnopqrstuvwxyzABCDEFGHIJKLMNOPQRSTUVWXYZ_0123456789"

abbrev pub numeric_characters : List ℕ
numeric_characters = bytes "0123456789"

abbrev pub core_symbol_characters : List ℕ
core_symbol_characters = bytes "!@#$%^&*-+={}[]|\\;:'\"<>?/~`.,()_"

-- 128 to 255, written out in the source.
abbrev pub extended_symbol_characters : List ℕ
extended_symbol_characters = run 128 128

abbrev pub symbol_characters : List ℕ
symbol_characters = bytes "!@#$%^&*-+={}[]|\\;:'\"<>?/~`.,()_" ++ run 128 128

-- ' ', '\t', '\n', '\r', '\v', '\f'
abbrev pub whitespace_characters : List ℕ
whitespace_characters = 32 ∷ 9 ∷ 10 ∷ 13 ∷ 11 ∷ 12 ∷ []

-- '\n', '\r', '\v', '\f'
abbrev pub newline_characters : List ℕ
newline_characters = 10 ∷ 13 ∷ 11 ∷ 12 ∷ []

-- '\0', '\a', '\b', '\t', '\n', '\v', '\f', '\r', '\x1b'
abbrev pub core_control_characters : List ℕ
core_control_characters = 0 ∷ 7 ∷ 8 ∷ 9 ∷ 10 ∷ 11 ∷ 12 ∷ 13 ∷ 27 ∷ []

unfoldable pub is_alpha : ℕ → Bool
is_alpha c = any_eq alphabetic_characters c

unfoldable pub is_numeric : ℕ → Bool
is_numeric c = any_eq numeric_characters c

unfoldable pub is_underscore : ℕ → Bool
is_underscore c = c == b'_'

unfoldable pub is_alnum : ℕ → Bool
unfolding is_alpha is_numeric
is_alnum c = is_alpha c || is_numeric c

unfoldable pub is_alus : ℕ → Bool
unfolding is_alpha is_underscore
is_alus c = is_alpha c || is_underscore c

unfoldable pub is_alnumus : ℕ → Bool
unfolding is_alpha is_numeric is_underscore
is_alnumus c = is_alpha c || is_numeric c || is_underscore c

unfoldable pub is_symbol : ℕ → Bool
is_symbol c = any_eq symbol_characters c

unfoldable pub is_core_symbol : ℕ → Bool
is_core_symbol c = any_eq core_symbol_characters c

unfoldable pub is_extended_symbol : ℕ → Bool
is_extended_symbol c = any_eq extended_symbol_characters c

unfoldable pub is_printable_space : ℕ → Bool
is_printable_space c = c == b' ' || c == 9

unfoldable pub is_printable : ℕ → Bool
unfolding is_alpha is_numeric is_core_symbol is_printable_space
is_printable c = is_alpha c || is_numeric c || is_core_symbol c || is_printable_space c

unfoldable pub is_whitespace : ℕ → Bool
is_whitespace c = any_eq whitespace_characters c

unfoldable pub is_newline : ℕ → Bool
is_newline c = any_eq newline_characters c

unfoldable pub is_core_control : ℕ → Bool
is_core_control c = any_eq core_control_characters c
