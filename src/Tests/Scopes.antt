-- ===== src/Tests/Scopes.antt =====
-- The searches for scopes and statements, and cursors, on small inputs.
use cand_lang_proto.Base.{none, ℕ, get_or, some, ◌++◌, true, List, [], ◌∷◌, ◌≡◌, refl, arith}
use cand_lang_proto.Scopes.Scope.{TkScope, scope_valid, scope_failure}
use cand_lang_proto.Scopes.Iterator.{
  ℤ, TkIterator, advance, advance_to, peek, beg, ◌+ℤ◌, sentinel_end_token,
}
use cand_lang_proto.Scopes.IteratorBounds.{◌≤ℤ◌, InRange, Nearest, advance-InRange, peek-InRange}
use cand_lang_proto.Scopes.Find.{
  list, opens, push, start, paren, frame, kind_turn, find_scope, scan, round, after_loop, conclude,
}
use cand_lang_proto.Scopes.Balanced.{empty, plain, group, Group}
use cand_lang_proto.Scopes.Depths.{Counted, start-Counted, round-Counted}
use cand_lang_proto.Scopes.FindComplete.{find_scope_complete}
use cand_lang_proto.Scopes.FindSound.{find_scope_sound}
use cand_lang_proto.Scopes.Separated.{find_seperated, separate, branch}
use cand_lang_proto.Scopes.SeparatedParts.{Parts}
use cand_lang_proto.Scopes.SeparatedSound.{find_seperated-Parts}
use cand_lang_proto.Scopes.SeparatedComplete.{find_seperated_returns}
use cand_lang_proto.Scopes.Statement.{gives, find_statement}
use cand_lang_proto.Scopes.OpenStatement.{find_open_statement, find_program_statement}
use cand_lang_proto.Scopes.OpenStatementFound.{
  find_open_statement_complete, find_open_statement_unclosed, find_program_statement_complete,
}
use cand_lang_proto.Scopes.StatementLoop.{Body, scope, no_tokens}
use cand_lang_proto.Scopes.StatementFound.{find_statement_complete, find_statement_unclosed}
use cand_lang_proto.Syntax.Kinds.{
  tk_type_is_opening_scope, tk_type_is_closing_scope, tk_type_is_closing_scope_of,
}
use cand_lang_proto.Syntax.Token.{Tk, of_type}
use cand_lang_proto.Syntax.TokenKind.{ETk, tk_eq}

-- `([a])b`
abbrev group_tokens : List Tk
group_tokens =
    of_type ETk.open_paren_
    ∷ of_type ETk.open_bracket_
    ∷ of_type ETk.alnumus_
    ∷ of_type ETk.close_bracket_
    ∷ of_type ETk.close_paren_
    ∷ of_type ETk.alnumus_
    ∷ []

group_tokens-Group : Group paren group_tokens 5
group_tokens-Group = record {
  open_token = of_type ETk.open_paren_;
  inner = of_type ETk.open_bracket_ ∷ of_type ETk.alnumus_ ∷ of_type ETk.close_bracket_ ∷ [];
  close_token = of_type ETk.close_paren_;
  rest = of_type ETk.alnumus_ ∷ [];
  tokens_are = refl;
  opens_it = unfold kind_turn in refl;
  closes_it = unfold kind_turn in refl;
  balanced =
      group frame (of_type ETk.open_bracket_) (of_type ETk.close_bracket_)
        (of_type ETk.alnumus_ ∷ []) [] (unfold kind_turn in refl) (unfold kind_turn in refl)
        (plain {t = of_type ETk.alnumus_} (unfold kind_turn in refl) empty) empty;
  end_is = refl;
}

find_scope_complete_example : find_scope paren group_tokens ≡ scope_valid 0 5
find_scope_complete_example = find_scope_complete paren group_tokens 5 group_tokens-Group

group_tokens_valid : (find_scope paren group_tokens).valid ≡ true
unfolding find_scope scan round after_loop conclude kind_turn
group_tokens_valid = refl

find_scope_sound_example : Group paren group_tokens (find_scope paren group_tokens).end
find_scope_sound_example = find_scope_sound paren group_tokens group_tokens_valid

-- A cursor at the fifth of six tokens.
abbrev cursor : TkIterator
cursor = record { range = group_tokens; it = ℤ.pos 4 }

cursor-InRange : InRange cursor
cursor-InRange = (omega arith, omega arith)

advance-InRange_example :
    (beg ≤ℤ (advance cursor (ℤ.negsuc 8)).it)
    × ((advance cursor (ℤ.negsuc 8)).it ≤ℤ ℤ.pos 6)
    × Nearest cursor (ℤ.pos 4 +ℤ ℤ.negsuc 8) (advance cursor (ℤ.negsuc 8)).it
    × ((advance cursor (ℤ.negsuc 8)).range ≡ group_tokens)
advance-InRange_example = advance-InRange cursor (ℤ.negsuc 8) cursor-InRange

-- Nine tokens back stop at the begin, nine ahead at the end.
advance_back : (advance cursor (ℤ.negsuc 8)).it ≡ beg
unfolding advance ◌+ℤ◌
advance_back = refl

advance_ahead : (advance cursor (ℤ.pos 9)).it ≡ ℤ.pos 6
unfolding advance ◌+ℤ◌
advance_ahead = refl

peek-InRange_example :
    (q : ℕ) × Nearest cursor (ℤ.pos 4 +ℤ ℤ.negsuc 1) (ℤ.pos q)
    × (peek cursor (ℤ.negsuc 1) ≡ some (get_or group_tokens q sentinel_end_token))
peek-InRange_example = peek-InRange cursor (ℤ.negsuc 1) cursor-InRange

-- The position of the end is reached, the one behind it is not.
abbrev at_six : TkIterator
at_six = record { range = group_tokens; it = ℤ.pos 6 }

advance_to_seven : advance_to cursor (ℤ.pos 7) ≡ none
unfolding advance_to
advance_to_seven = refl

-- `(a, [b, c])`: the comma in the inner scope does not separate.
abbrev behind_open : List Tk
behind_open =
    of_type ETk.alnumus_
    ∷ of_type ETk.comma_
    ∷ of_type ETk.open_bracket_
    ∷ of_type ETk.alnumus_
    ∷ of_type ETk.comma_
    ∷ of_type ETk.alnumus_
    ∷ of_type ETk.close_bracket_
    ∷ of_type ETk.close_paren_
    ∷ []

list_parts :
    find_seperated paren ETk.comma_ (of_type ETk.open_paren_ ∷ behind_open)
    ≡ some (scope_valid 0 3 ∷ scope_valid 2 9 ∷ [])
unfolding find_seperated separate branch tk_eq tk_type_is_opening_scope tk_type_is_closing_scope
    tk_type_is_closing_scope_of
list_parts = refl

find_seperated-Parts_example :
    Parts paren ETk.comma_ 9 0 behind_open (scope_valid 0 3 ∷ scope_valid 2 9 ∷ [])
find_seperated-Parts_example =
    find_seperated-Parts paren ETk.comma_ (of_type ETk.open_paren_) behind_open refl list_parts

find_seperated_returns_example :
    (parts : List TkScope) × (find_seperated paren ETk.comma_ group_tokens ≡ some parts)
find_seperated_returns_example =
    find_seperated_returns paren ETk.comma_ group_tokens 5 (unfold kind_turn in refl)
      group_tokens-Group

-- `: (a) ;`, with a scope as the body.
abbrev body_tokens : List Tk
body_tokens = of_type ETk.open_paren_ ∷ of_type ETk.alnumus_ ∷ of_type ETk.close_paren_ ∷ []

body_tokens-Body : Body ETk.colon_ ETk.semicolon_ body_tokens
body_tokens-Body =
    scope paren (of_type ETk.open_paren_) (of_type ETk.close_paren_) (of_type ETk.alnumus_ ∷ []) []
      (unfold kind_turn in refl) (unfold kind_turn in refl)
      (plain {t = of_type ETk.alnumus_} (unfold kind_turn in refl) empty) no_tokens

find_statement_complete_example :
    find_statement ETk.colon_ ETk.semicolon_
      (of_type ETk.colon_ ∷ body_tokens ++ of_type ETk.semicolon_ ∷ [])
    ≡ gives (scope_valid 0 5)
find_statement_complete_example =
    find_statement_complete ETk.colon_ ETk.semicolon_ (of_type ETk.colon_) (of_type ETk.semicolon_)
      body_tokens [] (unfold kind_turn in refl) (unfold kind_turn in refl) refl refl
      body_tokens-Body

find_statement_unclosed_example :
    find_statement ETk.colon_ ETk.semicolon_ (of_type ETk.colon_ ∷ body_tokens)
    ≡ gives (scope_valid 0 1)
find_statement_unclosed_example =
    find_statement_unclosed ETk.colon_ ETk.semicolon_ (of_type ETk.colon_) (of_type ETk.open_paren_)
      (of_type ETk.alnumus_ ∷ of_type ETk.close_paren_ ∷ []) (unfold kind_turn in refl)
      (unfold kind_turn in refl) refl body_tokens-Body

body_tokens-program : Body ETk.semicolon_ ETk.semicolon_ body_tokens
body_tokens-program =
    scope paren (of_type ETk.open_paren_) (of_type ETk.close_paren_) (of_type ETk.alnumus_ ∷ []) []
      (unfold kind_turn in refl) (unfold kind_turn in refl)
      (plain {t = of_type ETk.alnumus_} (unfold kind_turn in refl) empty) no_tokens

find_open_statement_complete_example :
    find_open_statement ETk.colon_ ETk.semicolon_
      (of_type ETk.colon_ ∷ body_tokens ++ of_type ETk.semicolon_ ∷ [])
    ≡ gives (scope_valid 0 5)
find_open_statement_complete_example =
    find_open_statement_complete ETk.colon_ ETk.semicolon_ (of_type ETk.colon_)
      (of_type ETk.semicolon_) body_tokens [] (unfold kind_turn in refl) (unfold kind_turn in refl)
      refl refl body_tokens-program

find_open_statement_unclosed_example :
    find_open_statement ETk.colon_ ETk.semicolon_ (of_type ETk.colon_ ∷ body_tokens)
    ≡ gives (scope_failure 0 1 [])
find_open_statement_unclosed_example =
    find_open_statement_unclosed ETk.colon_ ETk.semicolon_ (of_type ETk.colon_)
      (of_type ETk.open_paren_) (of_type ETk.alnumus_ ∷ of_type ETk.close_paren_ ∷ [])
      (unfold kind_turn in refl) (unfold kind_turn in refl) refl body_tokens-program

find_program_statement_complete_example :
    find_program_statement
      (of_type ETk.print_ ∷ body_tokens ++ of_type ETk.semicolon_ ∷ of_type ETk.alnumus_ ∷ [])
    ≡ gives (scope_valid 0 5)
find_program_statement_complete_example =
    find_program_statement_complete (of_type ETk.print_) (of_type ETk.semicolon_) body_tokens
      (of_type ETk.alnumus_ ∷ []) (unfold kind_turn in refl) refl body_tokens-program

round-Counted_example : Counted (push list start)
round-Counted_example =
    round-Counted paren start (push list start) (opens list) start-Counted (unfold round in refl)
