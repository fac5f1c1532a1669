-- ===== src/Syntax/Kinds.antt =====
-- Candi_Compiler/cand_syntax.hpp: which kinds are keywords, and which open and close scopes.
use cand_lang_proto.Base.{Bool, true, false, ◌&&◌, ◌||◌}
use cand_lang_proto.Syntax.TokenKind.{ETk, tk_eq}
use cand_lang_proto.Syntax.NodeKind.{EAst}

unfoldable pub tk_type_is_keyword : ETk → Bool
tk_type_is_keyword ETk.include_ = true
tk_type_is_keyword ETk.macro_ = true
tk_type_is_keyword ETk.endmacro_ = true
tk_type_is_keyword ETk.enter_ = true
tk_type_is_keyword ETk.start_ = true
tk_type_is_keyword ETk.use_ = true
tk_type_is_keyword ETk.class_ = true
tk_type_is_keyword ETk.obj_ = true
tk_type_is_keyword ETk.private_ = true
tk_type_is_keyword ETk.public_ = true
tk_type_is_keyword ETk.const_ = true
tk_type_is_keyword ETk.static_ = true
tk_type_is_keyword ETk.if_ = true
tk_type_is_keyword ETk.else_ = true
tk_type_is_keyword ETk.elif_ = true
tk_type_is_keyword ETk.while_ = true
tk_type_is_keyword ETk.for_ = true
tk_type_is_keyword ETk.switch_ = true
tk_type_is_keyword ETk.case_ = true
tk_type_is_keyword ETk.default_ = true
tk_type_is_keyword ETk.break_ = true
tk_type_is_keyword ETk.continue_ = true
tk_type_is_keyword ETk.return_ = true
tk_type_is_keyword ETk.print_ = true
tk_type_is_keyword ETk.none_literal_ = true
tk_type_is_keyword ETk.true_literal_ = true
tk_type_is_keyword ETk.false_literal_ = true
tk_type_is_keyword ETk.type_ = true
tk_type_is_keyword ETk.identity_ = true
tk_type_is_keyword ETk.value_ = true
tk_type_is_keyword ETk.int_ = true
tk_type_is_keyword ETk.uint_ = true
tk_type_is_keyword ETk.real_ = true
tk_type_is_keyword ETk.byte_ = true
tk_type_is_keyword ETk.bit_ = true
tk_type_is_keyword ETk.str_ = true
tk_type_is_keyword _ = false

unfoldable pub ast_type_is_keyword : EAst → Bool
ast_type_is_keyword EAst.include_ = true
ast_type_is_keyword EAst.macro_ = true
ast_type_is_keyword EAst.endmacro_ = true
ast_type_is_keyword EAst.enter_ = true
ast_type_is_keyword EAst.start_ = true
ast_type_is_keyword EAst.use_ = true
ast_type_is_keyword EAst.class_ = true
ast_type_is_keyword EAst.obj_ = true
ast_type_is_keyword EAst.private_ = true
ast_type_is_keyword EAst.public_ = true
ast_type_is_keyword EAst.const_ = true
ast_type_is_keyword EAst.static_ = true
ast_type_is_keyword EAst.if_ = true
ast_type_is_keyword EAst.else_ = true
ast_type_is_keyword EAst.elif_ = true
ast_type_is_keyword EAst.while_ = true
ast_type_is_keyword EAst.for_ = true
ast_type_is_keyword EAst.switch_ = true
ast_type_is_keyword EAst.case_ = true
ast_type_is_keyword EAst.default_ = true
ast_type_is_keyword EAst.break_ = true
ast_type_is_keyword EAst.continue_ = true
ast_type_is_keyword EAst.return_ = true
ast_type_is_keyword EAst.print_ = true
ast_type_is_keyword EAst.none_literal_ = true
ast_type_is_keyword EAst.true_literal_ = true
ast_type_is_keyword EAst.false_literal_ = true
ast_type_is_keyword EAst.type_ = true
ast_type_is_keyword EAst.identity_ = true
ast_type_is_keyword EAst.value_ = true
ast_type_is_keyword EAst.int_ = true
ast_type_is_keyword EAst.uint_ = true
ast_type_is_keyword EAst.real_ = true
ast_type_is_keyword EAst.byte_ = true
ast_type_is_keyword EAst.bit_ = true
ast_type_is_keyword EAst.str_ = true
ast_type_is_keyword _ = false

unfoldable pub tk_type_is_opening_scope : ETk → Bool
tk_type_is_opening_scope ETk.open_paren_ = true
tk_type_is_opening_scope ETk.open_brace_ = true
tk_type_is_opening_scope ETk.open_bracket_ = true
tk_type_is_opening_scope _ = false

unfoldable pub tk_type_is_closing_scope : ETk → Bool
tk_type_is_closing_scope ETk.close_paren_ = true
tk_type_is_closing_scope ETk.close_brace_ = true
tk_type_is_closing_scope ETk.close_bracket_ = true
tk_type_is_closing_scope _ = false

unfoldable pub tk_type_is_closing_scope_of : ETk → ETk → Bool
unfolding tk_eq
tk_type_is_closing_scope_of topen tclose =
    (tk_eq topen ETk.open_paren_ && tk_eq tclose ETk.close_paren_)
    || (tk_eq topen ETk.open_brace_ && tk_eq tclose ETk.close_brace_)
    || (tk_eq topen ETk.open_bracket_ && tk_eq tclose ETk.close_bracket_)
