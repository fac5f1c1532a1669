-- ===== src/Scopes/Statement.antt =====
-- Candi_Compiler/token_iterator.hpp, `find_statement`: the stretch from an open token to the first
-- close token that stands outside of scopes. The variables are those of the search for scopes.
use cand_lang_proto.Base.{ℕ, ◌+◌, Bool, ◌&&◌, ◌==◌, List, [], ◌∷◌, bytes, if◌then◌else◌}
use cand_lang_proto.Syntax.TokenKind.{ETk}
use cand_lang_proto.Syntax.Token.{Tk, type_is}
use cand_lang_proto.Scopes.Scope.{TkScope, scope_valid, scope_failure}
use cand_lang_proto.Scopes.Find.{
  Shape, paren, list, frame, same_shape, Turn, opens, closes, other, turn, Loop, start, push, pop,
}

-- The outcome: a result, an exception, or the read of a token behind the end of the range, which
-- has no value.
pub data Searched : Type 0 where
  gives : TkScope → Searched
  throws : List ℕ → Searched
  reads_end : Searched

abbrev pub not_on_open_message : List ℕ
not_on_open_message = bytes "find_statement: begin iterator not on an open token."

abbrev pub repeated_open_message : List ℕ
repeated_open_message = bytes "find_statement: Found a repeated open token before a close token."

abbrev pub early_close_message : Shape → List ℕ
early_close_message paren = bytes "find_statement: Found a close_scope before an open_scope."
early_close_message frame =
    bytes "find_statement: Found a close frame token before an open frame token."
early_close_message list =
    bytes "find_statement: Found a close list token before an open list token."

unfoldable pub outside : Loop → Bool
outside l = l.paren_scope_depth == 0 && l.frame_scope_depth == 0 && l.list_scope_depth == 0

-- A round: the loop goes on, breaks at this token, or throws.
pub data StatementRound : Type 0 where
  next_round stop_round : Loop → StatementRound
  throw_round : List ℕ → StatementRound

-- The tests at the end of a round.
unfoldable pub end_round : ETk → ETk → Tk → Loop → StatementRound
end_round first_kind last_kind t l =
    if outside l
    then (if type_is last_kind t
        then stop_round l
        else if type_is first_kind t
        then throw_round repeated_open_message
        else next_round l)
    else next_round l

-- A close token of a scope that is not the one opened last.
abbrev pub early_close : ETk → Tk → Shape → Loop → StatementRound
early_close last_kind t s l =
    if type_is last_kind t then stop_round l else throw_round (early_close_message s)

abbrev pub close_scope_round : ETk → ETk → Tk → Shape → Loop → List Shape → StatementRound
close_scope_round first_kind last_kind t s l [] = early_close last_kind t s l
close_scope_round first_kind last_kind t s l (top ∷ rest) =
    if same_shape top s
    then end_round first_kind last_kind t (pop s rest l)
    else early_close last_kind t s l

unfoldable pub statement_round : ETk → ETk → Tk → Loop → Turn → StatementRound
statement_round first_kind last_kind t l (opens s) = end_round first_kind last_kind t (push s l)
statement_round first_kind last_kind t l (closes s) =
    close_scope_round first_kind last_kind t s l l.scope_type_history
statement_round first_kind last_kind t l other = end_round first_kind last_kind t l

-- The tests behind the loop, on `last_closed`.
unfoldable pub conclude_statement : ℕ → Loop → TkScope
conclude_statement last_closed l =
    if outside l then scope_valid 0 (last_closed + 1) else scope_failure 0 (last_closed + 1) []

-- The loop from position `i` on; `last_closed` is still at the open token where it runs out.
unfoldable pub scan_statement : ETk → ETk → List Tk → ℕ → Loop → Searched
scan_statement first_kind last_kind [] i l = gives (conclude_statement 0 l)
scan_statement first_kind last_kind (t ∷ ts) i l =
    elim (statement_round first_kind last_kind t l (turn t)) [
      | next_round l' ↦ scan_statement first_kind last_kind ts (i + 1) l'
      | stop_round l' ↦ gives (conclude_statement i l')
      | throw_round message ↦ throws message
    ]

unfoldable pub find_statement : ETk → ETk → List Tk → Searched
find_statement first_kind last_kind [] = reads_end
find_statement first_kind last_kind (t ∷ []) =
    if type_is first_kind t then reads_end else throws not_on_open_message
find_statement first_kind last_kind (t ∷ u ∷ ts) =
    if type_is first_kind t
    then (if type_is last_kind u
        then gives (scope_valid 0 2)
        else scan_statement first_kind last_kind (u ∷ ts) 1 start)
    else throws not_on_open_message
