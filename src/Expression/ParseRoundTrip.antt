-- ===== src/Expression/ParseRoundTrip.antt =====
-- `parse_expression_impl` reads back the tree that its tokens spell.
use cand_lang_proto.Base.{
  ℕ, zero, suc, ◌<◌, List, [], ◌∷◌, ◌++◌, ◌≡◌, ap, ◌∙◌, arith, length, length-append, append_assoc,
}
use cand_lang_proto.Syntax.Token.{Tk}
use cand_lang_proto.Syntax.Ast.{Ast, of_token, push_back}
use cand_lang_proto.Expression.Outcome.{Ending, ok, ◌>>=◌}
use cand_lang_proto.Expression.Parse.{
  parse_first, parse_operand, parse_operator, parse_within, parse_expression_impl,
}
use cand_lang_proto.Expression.Spelling.{
  Operand, single, grouped, Spells, just, before, behind, applies, between, unary, Spells-Balanced,
}
use cand_lang_proto.Expression.ParseSteps.{
  operand_single, operand_group, first_single, first_operator, first_prefix, first_group,
  group_operator, operator_postfix, operator_binary, operator_applies,
}

-- What is used of the recursive call: it reads back the shorter spellings.
abbrev ReadsBack : (List Tk → Ending Ast) → ℕ → Type 0
ReadsBack parse bound = (ts : List Tk) (a : Ast) → Spells ts a → length ts < bound → parse ts ≡ ok a

module _ (parse : List Tk → Ending Ast) (bound : ℕ) (reads : ReadsBack parse bound) where
  reads-Operand :
      {ts : List Tk} {a : Ast}
      → Operand ts a
      → length ts < suc bound
      → parse_operand parse ts ≡ ok a
  reads-Operand (single t e) h = operand_single parse t e
  reads-Operand (grouped o c ts a e f s) h =
      operand_group parse o c ts e f (Spells-Balanced s)
      ∙ reads ts a s (omega (arith, h, length-append ts (c ∷ [])))

  -- An operand alone, and one with an operator behind it.
  alone :
      {ts : List Tk} {a : Ast} → Operand ts a → length ts < suc bound → parse_first parse ts ≡ ok a
  alone (single t e) h = first_single parse t e
  alone (grouped o c ts a e f s) h =
      first_group parse o c ts e f (Spells-Balanced s)
      ∙ reads ts a s (omega (arith, h, length-append ts (c ∷ [])))

  followed :
      {ts : List Tk} {a : Ast}
      → Operand ts a
      → (r : Tk) (rest : List Tk) → length (ts ++ r ∷ rest) < suc bound
      → parse_first parse (ts ++ r ∷ rest) ≡ parse_operator parse a (r ∷ rest)
  followed (single t e) r rest h = first_operator parse t r rest e
  followed (grouped o c ts a e f s) r rest h =
      ap (λ us. parse_first parse (o ∷ us)) (append_assoc ts (c ∷ []) (r ∷ rest))
      ∙ group_operator parse o c r ts rest e f (Spells-Balanced s)
      ∙ ap (λ m. m >>= λ left. parse_operator parse left (r ∷ rest))
          (reads ts a s
            (omega (arith, h, length-append (ts ++ c ∷ []) (r ∷ rest), length-append ts (c ∷ []))))

  spelling_reads :
      {ts : List Tk} {a : Ast} → Spells ts a → length ts < suc bound → parse_first parse ts ≡ ok a
  spelling_reads (just ts a u) h = alone u h
  spelling_reads (before p ts a e u) h =
      first_prefix parse p ts e
      ∙ ap (λ m. m >>= λ right. ok (unary p right)) (reads-Operand u (omega arith))
  spelling_reads (behind q ts a e o u) h = followed u q [] h ∙ operator_postfix parse a q e o
  spelling_reads (applies s o c ts inner a e f b u) h =
      followed u o (inner ++ c ∷ []) h ∙ operator_applies parse s a o c inner e f b
  spelling_reads (between b xs ys x y e u v) h =
      followed u b ys h
      ∙ operator_binary parse x b ys e
      ∙ ap (λ m. m >>= λ right. ok (push_back (push_back (of_token b) x) right))
          (reads-Operand v (omega (arith, h, length-append xs (b ∷ ys))))

parse_within-Spells : (fuel : ℕ) → ReadsBack (parse_within fuel) fuel
unfolding parse_within
parse_within-Spells zero ts a s h = absurd (omega arith)
parse_within-Spells (suc fuel) ts a s h =
    spelling_reads (parse_within fuel) fuel (parse_within-Spells fuel) s h

-- Tokens that spell a tree, where every operand of an operator is one token or stands in
-- parentheses, are read as that tree. What stands in the scope of a call, an index or a type call is
-- any balanced tokens: it is not part of the tree.
pub parse_expression_impl-Spells :
    (ts : List Tk) (a : Ast) → Spells ts a → parse_expression_impl ts ≡ ok a
unfolding parse_expression_impl
parse_expression_impl-Spells ts a s = parse_within-Spells (suc (length ts)) ts a s (omega arith)

-- A list of tokens spells at most one tree.
pub Spells-unique : (ts : List Tk) (a b : Ast) → Spells ts a → Spells ts b → a ≡ b
Spells-unique ts a b s t =
    cc (parse_expression_impl-Spells ts a s, parse_expression_impl-Spells ts b t)
