-- ===== src/Scopes/Find.antt =====
-- Candi_Compiler/token_iterator.hpp, `find_paren`, `find_brace` and `find_bracket`: the scope that
-- starts at the first token of a range. The three are copies of one another up to the pair of
-- tokens that they look for, the texts of their messages, and the order of tests that exclude one
-- another; here they are one function of the shape of the scope.
use cand_lang_proto.Base.{
  ℕ, zero, suc, ◌+◌, ◌-◌, Bool, true, false, List, [], ◌∷◌, ◌++◌, length, get_or, bytes, ◌==◌,
  if◌then◌else◌,
}
use cand_lang_proto.Syntax.TokenKind.{ETk}
use cand_lang_proto.Syntax.Token.{Tk}
use cand_lang_proto.Scopes.Iterator.{sentinel_end_token}
use cand_lang_proto.Scopes.Scope.{TkScope, scope_valid, scope_failure}
use cand_lang_proto.Tokenizer.Messages.{decimal}

-- Parentheses, braces (a list) and brackets (a frame).
pub data Shape : Type 0 where
  paren list frame : Shape

abbrev pub same_shape : Shape → Shape → Bool
same_shape paren paren = true
same_shape list list = true
same_shape frame frame = true
same_shape _ _ = false

-- What the tests of a token's type tell: it opens or closes a scope of a shape, or neither.
pub data Turn : Type 0 where
  opens closes : Shape → Turn
  other : Turn

unfoldable pub kind_turn : ETk → Turn
kind_turn ETk.open_paren_ = opens paren
kind_turn ETk.close_paren_ = closes paren
kind_turn ETk.open_bracket_ = opens frame
kind_turn ETk.close_bracket_ = closes frame
kind_turn ETk.open_brace_ = opens list
kind_turn ETk.close_brace_ = closes list
kind_turn _ = other

abbrev pub turn : Tk → Turn
turn t = kind_turn t.kind

abbrev pub is_opening_of : Shape → Turn → Bool
is_opening_of s (opens s') = same_shape s s'
is_opening_of s _ = false

abbrev pub is_closing_of : Shape → Turn → Bool
is_closing_of s (closes s') = same_shape s s'
is_closing_of s _ = false

-- The variables of the loop. The stack holds the types of the opening tokens.
pub record Loop : Type 0 where
  pub paren_scope_depth : ℕ
  pub frame_scope_depth : ℕ
  pub list_scope_depth : ℕ
  pub scope_type_history : List Shape

abbrev pub start : Loop
start = record {
  paren_scope_depth = 0;
  frame_scope_depth = 0;
  list_scope_depth = 0;
  scope_type_history = [];
}

abbrev pub push : Shape → Loop → Loop
push paren l = record l {
  paren_scope_depth = l.paren_scope_depth + 1;
  scope_type_history = paren ∷ l.scope_type_history;
}
push frame l = record l {
  frame_scope_depth = l.frame_scope_depth + 1;
  scope_type_history = frame ∷ l.scope_type_history;
}
push list l = record l {
  list_scope_depth = l.list_scope_depth + 1;
  scope_type_history = list ∷ l.scope_type_history;
}

-- `pop()` and the decrement, where `rest` is what the stack holds below its top. A depth counts
-- the entries of its shape, so that none is decremented at 0.
abbrev pub pop : Shape → List Shape → Loop → Loop
pop paren rest l = record l {
  paren_scope_depth = l.paren_scope_depth - 1;
  scope_type_history = rest;
}
pop frame rest l = record l {
  frame_scope_depth = l.frame_scope_depth - 1;
  scope_type_history = rest;
}
pop list rest l = record l { list_scope_depth = l.list_scope_depth - 1; scope_type_history = rest }

-- A round: the loop goes on, or the token is the close of the scope itself, or it closes a scope
-- of its shape that is not open.
pub data Round : Type 0 where
  goes_on : Loop → Round
  breaks : Round
  mismatch : Shape → Round

abbrev pub close_round : Shape → Shape → Loop → List Shape → Round
close_round own s l [] = if same_shape own s then breaks else mismatch s
close_round own s l (top ∷ rest) = if same_shape top s then goes_on (pop s rest l) else mismatch s

unfoldable pub round : Shape → Loop → Turn → Round
round own l (opens s) = goes_on (push s l)
round own l (closes s) = close_round own s l l.scope_type_history
round own l other = goes_on l

-- The end of the loop: at the close token's position, at a mismatch, or at the end of the range,
-- with the position of the token before, `error_last_closed`.
pub data LoopEnd : Type 0 where
  closed_at : ℕ → Loop → LoopEnd
  mismatched : Shape → LoopEnd
  exhausted : ℕ → Loop → LoopEnd

-- The loop over the tokens behind position `last`, which is that of `error_last_closed`.
unfoldable pub scan : Shape → List Tk → ℕ → Loop → LoopEnd
scan own [] last l = exhausted last l
scan own (t ∷ ts) last l = elim (round own l (turn t)) [
  | goes_on l' ↦ scan own ts (last + 1) l'
  | breaks ↦ closed_at (last + 1) l
  | mismatch s ↦ mismatched s
]

-- The texts of the messages.
abbrev pub finder : Shape → List ℕ
finder paren = bytes "find_paren: "
finder list = bytes "find_brace: "
finder frame = bytes "find_bracket: "

abbrev pub scope_name : Shape → List ℕ
scope_name paren = bytes "Parentheses scope"
scope_name list = bytes "List scope"
scope_name frame = bytes "Frame scope"

abbrev pub at_end_message : Shape → List ℕ
at_end_message s = finder s ++ bytes "Open token is at end of token vector."

abbrev pub not_open_message : Shape → List ℕ
not_open_message paren = bytes "find_paren: Open token is not an open scope token."
not_open_message list = bytes "find_brace: Open token is not an open list token."
not_open_message frame = bytes "find_bracket: Open token is not an open frame token."

abbrev pub mismatch_message : Shape → Shape → List ℕ
mismatch_message own paren = finder own ++ bytes "Close token ')' without open token '('."
mismatch_message own frame = finder own ++ bytes "Close token ']' without open token '['."
mismatch_message own list = finder own ++ bytes "Close token '}' without open token '{'."

-- `find_brace` asks for ']' as well.
abbrev pub expected_close : Shape → List ℕ
expected_close paren = bytes "Expected a close token ')' at line:"
expected_close _ = bytes "Expected a close token ']' at line:"

abbrev pub never_closed_message : Shape → Tk → Tk → List ℕ
never_closed_message s last_open error_last_closed =
    finder s
    ++ (scope_name s
        ++ (bytes " at line:"
            ++ (decimal last_open.line
                ++ (bytes " column:"
                    ++ (decimal last_open.col
                        ++ (bytes " was never closed.\n"
                            ++ (expected_close s
                                ++ (decimal error_last_closed.line
                                    ++ (bytes " column:" ++ decimal error_last_closed.col)))))))))

abbrev not_zero : ℕ → Bool
not_zero zero = false
not_zero (suc n) = true

-- The tests behind the loop, on the tokens, `last_closed` and `error_last_closed`.
unfoldable pub conclude : Shape → List Tk → ℕ → ℕ → Loop → TkScope
conclude s ts last_closed error_last_closed l =
    if not_zero l.paren_scope_depth
    then scope_failure 0 (last_closed + 1)
        (finder s ++ (scope_name s ++ bytes " contains mismatched parentheses."))
    else if not_zero l.frame_scope_depth
    then scope_failure 0 (last_closed + 1)
        (finder s ++ (scope_name s ++ bytes " contains mismatched frames."))
    else if not_zero l.list_scope_depth
    then scope_failure 0 (last_closed + 1)
        (finder s ++ (scope_name s ++ bytes " contains mismatched list scopes."))
    else if last_closed == 0
    then scope_failure 0 (length ts) (
        never_closed_message s (get_or ts 0 sentinel_end_token)
          (get_or ts error_last_closed sentinel_end_token))
    else scope_valid 0 (last_closed + 1)

unfoldable pub after_loop : Shape → List Tk → LoopEnd → TkScope
after_loop s ts (closed_at p l) = conclude s ts p (p - 1) l
after_loop s ts (mismatched s') = scope_failure 0 (length ts) (mismatch_message s s')
after_loop s ts (exhausted last l) = conclude s ts 0 last l

-- `find_bracket` has no `return` for an empty range and goes on to the next test, which fails on
-- the end token.
abbrev pub empty_message : Shape → List ℕ
empty_message frame = not_open_message frame
empty_message s = at_end_message s

unfoldable pub find_scope : Shape → List Tk → TkScope
find_scope s [] = scope_failure 0 0 (empty_message s)
find_scope s (t ∷ []) =
    if is_opening_of s (turn t)
    then scope_failure 0 1 (at_end_message s)
    else scope_failure 0 1 (not_open_message s)
find_scope s (t ∷ u ∷ ts) =
    if is_opening_of s (turn t)
    then (if is_closing_of s (turn u)
        then scope_valid 0 2
        else after_loop s (t ∷ u ∷ ts) (scan s (u ∷ ts) 0 start))
    else scope_failure 0 (length (t ∷ u ∷ ts)) (not_open_message s)

abbrev pub find_paren : List Tk → TkScope
find_paren ts = find_scope paren ts

abbrev pub find_brace : List Tk → TkScope
find_brace ts = find_scope list ts

abbrev pub find_bracket : List Tk → TkScope
find_bracket ts = find_scope frame ts
