-- ===== src/Scopes/Separated.antt =====
-- Candi_Compiler/token_iterator.hpp, `find_seperated_paren`, `find_seperated_brace` and
-- `find_seperated_bracket`: the parts of a scope between separators. The three are copies of one
-- another up to the pair of tokens, which is the shape here.
use cand_lang_proto.Base.{
  ℕ, suc, ◌+◌, Bool, true, false, ◌&&◌, not, List, [], ◌∷◌, length, if◌then◌else◌, Option, none,
  some,
}
use cand_lang_proto.Syntax.TokenKind.{ETk}
use cand_lang_proto.Syntax.Kinds.{tk_type_is_closing_scope_of}
use cand_lang_proto.Syntax.Token.{Tk, type_is, is_opening_scope, is_closing_scope}
use cand_lang_proto.Scopes.Scope.{TkScope, scope_valid, scope_failure}
use cand_lang_proto.Scopes.Find.{Shape, paren, list, frame}

abbrev pub open_kind : Shape → ETk
open_kind paren = ETk.open_paren_
open_kind list = ETk.open_brace_
open_kind frame = ETk.open_bracket_

abbrev pub close_kind : Shape → ETk
close_kind paren = ETk.close_paren_
close_kind list = ETk.close_brace_
close_kind frame = ETk.close_bracket_

abbrev pub no_scope_open : List ETk → Bool
no_scope_open [] = true
no_scope_open (k ∷ h) = false

-- Whether the token closes the scope on top of the stack.
abbrev pub closes_top : List ETk → Tk → Bool
closes_top [] t = false
closes_top (k ∷ h) t = tk_type_is_closing_scope_of k t.kind

-- The branches of a round, for the stack of open scopes.
pub data Branch : Type 0 where
  separates enters leaves wrong_close finishes at_eof passes : Branch

unfoldable pub branch : Shape → ETk → List ETk → Tk → Branch
branch s separator h t =
    if type_is separator t && no_scope_open h
    then separates
    else if is_opening_scope t
    then enters
    else if is_closing_scope t && not (no_scope_open h)
    then (if closes_top h t then leaves else wrong_close)
    else if type_is (close_kind s) t && no_scope_open h
    then finishes
    else if type_is ETk.eof_ t
    then at_eof
    else passes

-- `pop` leaves an empty stack alone, which no branch asks for.
abbrev pub pop_kind : List ETk → List ETk
pop_kind [] = []
pop_kind (k ∷ h) = h

abbrev pub cons_scope : TkScope → Option (List TkScope) → Option (List TkScope)
cons_scope x none = none
cons_scope x (some xs) = some (x ∷ xs)

-- The loop from position `i` of a range that ends at `end`: the scopes that it still adds. `none`
-- stands for the end of the function without a `return`.
unfoldable pub separate : Shape → ETk → ℕ → List Tk → ℕ → ℕ → List ETk → Option (List TkScope)
separate s separator end [] i last_closed h = none
separate s separator end (t ∷ ts) i last_closed h = elim (branch s separator h t) [
  | separates ↦
      cons_scope (scope_valid last_closed (i + 1)) (separate s separator end ts (i + 1) i h)
  | enters ↦ separate s separator end ts (i + 1) last_closed (t.kind ∷ h)
  | leaves ↦ separate s separator end ts (i + 1) last_closed (pop_kind h)
  | wrong_close ↦ some (scope_failure i end [] ∷ [])
  | finishes ↦ some (scope_valid last_closed (i + 1) ∷ [])
  | at_eof ↦ some (scope_failure i end [] ∷ [])
  | passes ↦ separate s separator end ts (i + 1) last_closed h
]

-- An empty range is read at its end, which has no value.
unfoldable pub find_seperated : Shape → ETk → List Tk → Option (List TkScope)
find_seperated s separator [] = none
find_seperated s separator (t ∷ ts) =
    if type_is (open_kind s) t
    then separate s separator (suc (length ts)) ts 1 0 []
    else some (scope_failure 0 (suc (length ts)) [] ∷ [])

abbrev pub find_seperated_paren : List Tk → ETk → Option (List TkScope)
find_seperated_paren ts separator = find_seperated paren separator ts

abbrev pub find_seperated_brace : List Tk → ETk → Option (List TkScope)
find_seperated_brace ts separator = find_seperated list separator ts

abbrev pub find_seperated_bracket : List Tk → ETk → Option (List TkScope)
find_seperated_bracket ts separator = find_seperated frame separator ts
