-- ===== src/Tokenizer/Words.antt =====
-- Candi_Compiler/tokenizer.hpp, the two chains of tests in `lex_directive`, in their order: the
-- first word found at the start gives the token's kind.
use cand_lang_proto.Base.{ℕ, List, [], ◌∷◌, map}
use cand_lang_proto.Syntax.Keywords
use cand_lang_proto.Syntax.Keywords.{directive}
use cand_lang_proto.Syntax.TokenKind.{ETk}

-- The chain of `keywords`.
unfoldable pub keyword_chain : List (List ℕ × ETk)
keyword_chain =
    (Keywords.enter_, ETk.enter_)
    ∷ (Keywords.start_, ETk.start_)
    ∷ (Keywords.include_, ETk.include_)
    ∷ (Keywords.macro_, ETk.macro_)
    ∷ (Keywords.endmacro_, ETk.endmacro_)
    ∷ (Keywords.use_, ETk.use_)
    ∷ (Keywords.class_, ETk.class_)
    ∷ (Keywords.obj_, ETk.obj_)
    ∷ (Keywords.private_, ETk.private_)
    ∷ (Keywords.public_, ETk.public_)
    ∷ (Keywords.const_, ETk.const_)
    ∷ (Keywords.static_, ETk.static_)
    ∷ (Keywords.if_, ETk.if_)
    ∷ (Keywords.else_, ETk.else_)
    ∷ (Keywords.elif_, ETk.elif_)
    ∷ (Keywords.while_, ETk.while_)
    ∷ (Keywords.for_, ETk.for_)
    ∷ (Keywords.switch_, ETk.switch_)
    ∷ (Keywords.break_, ETk.break_)
    ∷ (Keywords.continue_, ETk.continue_)
    ∷ (Keywords.return_, ETk.return_)
    ∷ (Keywords.print_, ETk.print_)
    ∷ (Keywords.type_, ETk.type_)
    ∷ (Keywords.value_, ETk.value_)
    ∷ (Keywords.identity_, ETk.identity_)
    ∷ (Keywords.none_, ETk.none_literal_)
    ∷ (Keywords.int_, ETk.int_)
    ∷ (Keywords.uint_, ETk.uint_)
    ∷ (Keywords.real_, ETk.real_)
    ∷ (Keywords.byte_, ETk.byte_)
    ∷ (Keywords.bit_, ETk.bit_)
    ∷ (Keywords.str_, ETk.str_)
    ∷ (Keywords.array_, ETk.array_)
    ∷ (Keywords.pointer_, ETk.pointer_)
    ∷ (Keywords.memory_, ETk.memory_)
    ∷ (Keywords.function_, ETk.function_)
    ∷ []

-- The chain of `directives`.
unfoldable pub directive_chain : List (List ℕ × ETk)
unfolding keyword_chain
directive_chain = map (λ (w, k). (directive w, k)) keyword_chain
