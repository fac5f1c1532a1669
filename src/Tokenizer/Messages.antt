-- ===== src/Tokenizer/Messages.antt =====
-- Candi_Compiler/compiler_error.hpp, namespace `tokenizer`: the texts of the tokenizer's errors. A
-- number is written to the stream in decimal.
use Prim.Native.Nat.{◌/◌, ◌%◌}
use cand_lang_proto.Base.{ℕ, zero, suc, ◌+◌, List, [], ◌∷◌, ◌++◌, bytes, ltb, if◌then◌else◌}

-- The decimal digits of `n` in front of `acc`; `suc n` rounds are enough.
abbrev decimal_onto : ℕ → ℕ → List ℕ → List ℕ
decimal_onto zero n acc = acc
decimal_onto (suc fuel) n acc =
    let rest = decimal_onto fuel (n / 10) ((b'0' + n % 10) ∷ acc) in
    if ltb n 10 then (b'0' + n) ∷ acc else rest

unfoldable pub decimal : ℕ → List ℕ
decimal n = decimal_onto (suc n) n []

unfoldable pub invalid_char : ℕ → ℕ → ℕ → List ℕ → List ℕ
unfolding decimal
invalid_char line col c error =
    bytes "\n[User Syntax Error]: "
    ++ (bytes "\nInvalid character at line: "
        ++ (decimal line
            ++ (bytes " column: "
                ++ (decimal col
                    ++ (bytes " \nerror detail: "
                        ++ (error ++ (bytes "\n Offending character: " ++ c ∷ [])))))))

unfoldable pub lexer_syntax_error : ℕ → ℕ → ℕ → List ℕ → List ℕ
unfolding decimal
lexer_syntax_error line col c error =
    bytes "\n[User Syntax Error]: "
    ++ (bytes "\nLexer syntax error at line: "
        ++ (decimal line
            ++ (bytes " column: "
                ++ (decimal col
                    ++ (bytes "\n Offending character: "
                        ++ (c ∷ (bytes "\nerror detail: " ++ error)))))))
