-- ===== src/Expression/ClosureList.antt =====
-- Candi_Compiler/parenthesizer.hpp, `class closure_list`. Its closures are listed last first, so that
-- an iterator at a closure is what is listed from there, and `std::prev` is its tail; an iterator in
-- front of the first closure is the empty list, and reading it is undefined.
use cand_lang_proto.Base.{
  ℕ, suc, Bool, false, ◌&&◌, ◌||◌, ◌==◌, leb, List, [], ◌∷◌, ◌++◌, length, bytes, if◌then◌else◌,
}
use cand_lang_proto.Syntax.TokenKind.{ETk}
use cand_lang_proto.Syntax.Operators.{EAssoc, EPriority, priority_value}
use cand_lang_proto.Syntax.Token.{Tk, type_is, assoc, of_literal}
use cand_lang_proto.Expression.Outcome.{Ending, ok, throws, undefined, ◌>>=◌}
use cand_lang_proto.Expression.Parse.{prefix, postfix, binary, role}
use cand_lang_proto.Expression.Closure.{
  Node, Closure, opens_scope, level, token_level, insert_before, insert_after,
}

pub record ClosureList : Type 0 where
  pub output : List Node
  pub next_id : ℕ
  pub closures : List Closure

abbrev pub open_tk : Tk
open_tk = of_literal ETk.open_paren_ (bytes "(")

abbrev pub close_tk : Tk
close_tk = of_literal ETk.close_paren_ (bytes ")")

-- Closures that `find_backward_consecutive` found, last first, and those in front of them.
pub record Run : Type 0 where
  pub found : List Closure
  pub rest : List Closure

abbrev pub add_found : Closure → Run → Ending Run
add_found c r = ok (record { found = c ∷ r.found; rest = r.rest })

-- The condition is asked of a closure and the one in front of it.
abbrev pub extend : (Closure → Closure → Bool) → Closure → List Closure → Ending Run → Ending Run
extend condition c [] parenthesize_loop = undefined
extend condition c (d ∷ cs) parenthesize_loop =
    if condition c d
    then parenthesize_loop >>= add_found c
    else ok (record { found = c ∷ []; rest = d ∷ cs })

unfoldable pub find_backward_consecutive : (Closure → Closure → Bool) → List Closure → Ending Run
find_backward_consecutive condition [] = ok (record { found = []; rest = [] })
find_backward_consecutive condition (c ∷ cs) =
    extend condition c cs (find_backward_consecutive condition cs)

unfoldable pub find_backward_consecutive_and_ignore :
    (Closure → Closure → Bool) → (Closure → Bool) → List Closure → Ending Run
find_backward_consecutive_and_ignore condition ignore_condition [] =
    ok (record { found = []; rest = [] })
find_backward_consecutive_and_ignore condition ignore_condition (c ∷ cs) =
    let parenthesize_loop = find_backward_consecutive_and_ignore condition ignore_condition cs in
    if ignore_condition c then parenthesize_loop else extend condition c cs parenthesize_loop

abbrev pub same_priority : Closure → Closure → Bool
same_priority a b = level a == level b

abbrev pub has_priority : EPriority → Closure → Bool
has_priority p c = level c == priority_value p

abbrev pub is_unary : Closure → Bool
is_unary c = has_priority EPriority.postfix_ c || has_priority EPriority.prefix_ c

unfoldable pub output_insert_tk_before_closure : Closure → Tk → ClosureList → ClosureList
output_insert_tk_before_closure c t l = record l {
  output = insert_before c.front.id (record { id = l.next_id; tk = t }) l.output;
  next_id = suc l.next_id;
}

unfoldable pub output_insert_tk_after_closure : Closure → Tk → ClosureList → ClosureList
output_insert_tk_after_closure c t l = record l {
  output = insert_after c.back.id (record { id = l.next_id; tk = t }) l.output;
  next_id = suc l.next_id;
}

unfoldable pub output_push_back : Tk → ClosureList → ClosureList
output_push_back t l = record l {
  output = l.output ++ record { id = l.next_id; tk = t } ∷ [];
  next_id = suc l.next_id;
}

abbrev pub set_closures : List Closure → ClosureList → ClosureList
set_closures cs l = record l { closures = cs }

-- `pop_if` for the closures of a priority.
unfoldable pub pop_if_level : ℕ → List Closure → List Closure
pop_if_level p [] = []
pop_if_level p (c ∷ cs) = if level c == p then pop_if_level p cs else c ∷ pop_if_level p cs

-- The loops of the resolutions. `base` is the closure in front of those that are resolved.
unfoldable pub surround_postfix : Closure → List Closure → ClosureList → ClosureList
surround_postfix base [] l = l
surround_postfix base (c ∷ cs) l =
    output_insert_tk_after_closure c close_tk
      (output_insert_tk_after_closure base open_tk (surround_postfix base cs l))

-- All but the last of `found`, which is the earliest closure.
unfoldable pub surround_left : Closure → Closure → List Closure → ClosureList → ClosureList
surround_left base c [] l = l
surround_left base c (d ∷ cs) l =
    surround_left base d cs
      (output_insert_tk_before_closure c close_tk (output_insert_tk_after_closure base open_tk l))

unfoldable pub surround_right : List Closure → ClosureList → ClosureList
surround_right [] l = l
surround_right (c ∷ cs) l =
    surround_right cs (output_push_back close_tk (output_insert_tk_after_closure c open_tk l))

abbrev pub earliest : Closure → List Closure → Closure
earliest c [] = c
earliest c (d ∷ cs) = earliest d cs

-- Parentheses from behind `base` to the end of the output.
abbrev pub enclose : Closure → ClosureList → ClosureList
enclose base l = output_push_back close_tk (output_insert_tk_after_closure base open_tk l)

abbrev pub postfix_run : ClosureList → Run → Ending ClosureList
postfix_run l r = elim r.rest [
  | [] ↦ undefined
  | base ∷ cs ↦ ok (set_closures r.rest (surround_postfix base r.found l))
]

unfoldable pub resolve_postfix : ClosureList → Ending ClosureList
resolve_postfix l = find_backward_consecutive same_priority l.closures >>= postfix_run l

-- Both associative resolutions: `surround` adds the parentheses apart from the outermost.
abbrev pub binary_run :
    (Closure → Closure → List Closure → ClosureList → ClosureList)
    → ClosureList
    → Run
    → Ending ClosureList
binary_run surround l r = elim r.found [
  | [] ↦ undefined
  | c ∷ cs ↦ elim r.rest [
    | [] ↦ undefined
    | base ∷ _ ↦ ok (
        set_closures (pop_if_level (level (earliest c cs)) l.closures)
          (surround base c cs (enclose base l)))
  ]
]

unfoldable pub resolve_binary_left_associative : ClosureList → Ending ClosureList
resolve_binary_left_associative l =
    find_backward_consecutive_and_ignore same_priority is_unary l.closures
    >>= binary_run surround_left l

unfoldable pub resolve_binary_right_associative : ClosureList → Ending ClosureList
resolve_binary_right_associative l =
    find_backward_consecutive_and_ignore same_priority is_unary l.closures
    >>= binary_run (λ base c cs. surround_right cs) l

-- `while (it->priority() == p) it = std::prev(it);`
unfoldable pub skip_priority : EPriority → List Closure → Ending (List Closure)
skip_priority p [] = undefined
skip_priority p (c ∷ cs) =
    let rest = skip_priority p cs in if has_priority p c then rest else ok (c ∷ cs)

abbrev pub enclose_at : ClosureList → List Closure → List Closure → Ending ClosureList
enclose_at l cs [] = undefined
enclose_at l cs (base ∷ _) = ok (set_closures cs (enclose base l))

unfoldable pub resolve_binary_single : ClosureList → List Closure → Ending ClosureList
resolve_binary_single l cs =
    skip_priority EPriority.postfix_ cs >>= skip_priority EPriority.prefix_ >>= enclose_at l cs

-- `closures_.front()` is the sentinel, of which the resolutions assert that it is not alone.
abbrev pub first_is_none : List Closure → Bool
first_is_none [] = false
first_is_none (c ∷ []) = type_is ETk.none_ c.front.tk
first_is_none (c ∷ d ∷ cs) = first_is_none (d ∷ cs)

abbrev pub asserted : ClosureList → Bool
asserted l = leb 2 (length l.closures) && first_is_none l.closures

-- `c` is the last closure, `d` the one in front of it.
unfoldable pub resolve_binary : ClosureList → Ending ClosureList
resolve_binary l =
    if asserted l
    then elim l.closures [
      | [] ↦ undefined
      | c ∷ cs ↦ elim cs [
        | [] ↦ undefined
        | d ∷ ds ↦
            if level d == token_level c.front.tk
            then elim (assoc c.front.tk) [
              | EAssoc.left_ ↦ resolve_binary_left_associative l
              | EAssoc.right_ ↦ resolve_binary_right_associative l
              | EAssoc.none_ ↦ ok l
            ]
            else resolve_binary_single l (d ∷ ds)
      ]
    ]
    else undefined

unfoldable pub resolve_prefix : ClosureList → Ending ClosureList
resolve_prefix l =
    if asserted l
    then elim l.closures [
      | [] ↦ undefined
      | c ∷ cs ↦ ok (
          set_closures cs (output_push_back close_tk (output_insert_tk_before_closure c open_tk l)))
    ]
    else undefined

abbrev pub invalid_closure : List ℕ
invalid_closure = bytes "Invalid token type in closure."

unfoldable pub resolve_next : ClosureList → Ending ClosureList
resolve_next l = elim l.closures [
  | [] ↦ undefined
  | c ∷ _ ↦ elim (role c.front.tk) [
    | prefix ↦ resolve_prefix l
    | postfix ↦ resolve_postfix l
    | binary ↦ if opens_scope c.front.tk then resolve_postfix l else resolve_binary l
    | _ ↦ if opens_scope c.front.tk then resolve_postfix l else throws invalid_closure
  ]
]
