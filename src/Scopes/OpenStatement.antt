-- ===== src/Scopes/OpenStatement.antt =====
-- Candi_Compiler/token_iterator.hpp, `find_open_statement` and `find_program_statement`: as
-- `find_statement`, for an open token that may be repeated and may open a scope itself.
use cand_lang_proto.Base.{ℕ, suc, ◌+◌, List, [], ◌∷◌, length, ◌==◌, if◌then◌else◌}
use cand_lang_proto.Syntax.TokenKind.{ETk}
use cand_lang_proto.Syntax.Token.{Tk, type_is}
use cand_lang_proto.Scopes.Scope.{TkScope, scope_valid, scope_failure}
use cand_lang_proto.Scopes.Find.{
  Shape, paren, same_shape, Turn, opens, closes, other, turn, Loop, start, push, pop,
}
use cand_lang_proto.Scopes.Statement.{
  Searched, gives, throws, reads_end, not_on_open_message, early_close_message, outside,
}

-- A round: the loop goes on, breaks at this token, or the search ends.
pub data OpenRound : Type 0 where
  next_open stop_open : Loop → OpenRound
  ends : Searched → OpenRound

unfoldable pub end_open_round : ETk → Tk → Loop → OpenRound
end_open_round last_kind t l =
    if outside l then (if type_is last_kind t then stop_open l else next_open l) else next_open l

-- With no scope open, ')' gives an invalid scope up to the end of the range; for the others the
-- top of the empty stack is read, which has no value.
abbrev pub close_unopened : ℕ → Shape → Searched
close_unopened end paren = gives (scope_failure 0 end [])
close_unopened end _ = reads_end

abbrev pub close_open_round : ETk → ℕ → Tk → Shape → Loop → List Shape → OpenRound
close_open_round last_kind end t s l [] = ends (close_unopened end s)
close_open_round last_kind end t s l (top ∷ rest) =
    if same_shape top s
    then end_open_round last_kind t (pop s rest l)
    else if type_is last_kind t
    then stop_open l
    else ends (throws (early_close_message s))

unfoldable pub open_statement_round : ETk → ℕ → Tk → Loop → Turn → OpenRound
open_statement_round last_kind end t l (opens s) = end_open_round last_kind t (push s l)
open_statement_round last_kind end t l (closes s) =
    close_open_round last_kind end t s l l.scope_type_history
open_statement_round last_kind end t l other = end_open_round last_kind t l

-- The tests behind the loop.
unfoldable pub conclude_open : ℕ → Loop → TkScope
conclude_open last_closed l =
    if outside l
    then (if last_closed == 0
        then scope_failure 0 (last_closed + 1) []
        else scope_valid 0 (last_closed + 1))
    else scope_failure 0 (last_closed + 1) []

unfoldable pub scan_open_statement : ETk → ℕ → List Tk → ℕ → Loop → Searched
scan_open_statement last_kind end [] i l = gives (conclude_open 0 l)
scan_open_statement last_kind end (t ∷ ts) i l =
    elim (open_statement_round last_kind end t l (turn t)) [
      | next_open l' ↦ scan_open_statement last_kind end ts (i + 1) l'
      | stop_open l' ↦ gives (conclude_open i l')
      | ends result ↦ result
    ]

-- The open token's own scope is open from the start.
abbrev pub start_at : Turn → Loop
start_at (opens s) = push s start
start_at _ = start

unfoldable pub find_open_statement : ETk → ETk → List Tk → Searched
find_open_statement first_kind last_kind [] = reads_end
find_open_statement first_kind last_kind (t ∷ []) = gives (scope_failure 0 2 [])
find_open_statement first_kind last_kind (t ∷ u ∷ ts) =
    if type_is first_kind t
    then (if type_is last_kind u
        then gives (scope_valid 0 2)
        else scan_open_statement last_kind (suc (suc (length ts))) (u ∷ ts) 1 (start_at (turn t)))
    else throws not_on_open_message

unfoldable pub find_program_statement : List Tk → Searched
find_program_statement [] = reads_end
find_program_statement (t ∷ ts) = find_open_statement t.kind ETk.semicolon_ (t ∷ ts)
