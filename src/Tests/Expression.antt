-- ===== src/Tests/Expression.antt =====
-- Trees and expressions on small inputs.
use cand_lang_proto.Base.{if◌then◌else◌, false, some, List, [], ◌∷◌, ◌≡◌, refl}
use cand_lang_proto.Syntax.TokenKind.{ETk}
use cand_lang_proto.Syntax.Operators.{
  tk_type_operation, tk_type_priority, tk_type_assoc, priority_value,
}
use cand_lang_proto.Syntax.Token.{Tk, of_type}
use cand_lang_proto.Syntax.Ast.{Ast, of_token, push_back, push_front, pop_back, pop_front, ast_back}
use cand_lang_proto.Syntax.AstChildren.{pop_back-push_back}
use cand_lang_proto.Scopes.Find.{kind_turn}
use cand_lang_proto.Expression.Outcome.{ok, Defined, Ensures}
use cand_lang_proto.Expression.Parse.{operand, binary, role, parse_expression_impl}
use cand_lang_proto.Expression.ParseSteps.{parse_expression_impl_ignores_rest}
use cand_lang_proto.Expression.ParseRoundTrip.{parse_expression_impl-Spells}
use cand_lang_proto.Expression.Spelling.{Spells, single, grouped, between}
use cand_lang_proto.Expression.Strip.{strip}
use cand_lang_proto.Expression.Parenthesizer.{parenthesize_expression, parse_expression}
use cand_lang_proto.Expression.Parenthesized.{parenthesize_expression-strip}
use cand_lang_proto.Expression.ParseFuel.{parse_expression-Defined}
use cand_lang_proto.Expression.Grouping.{binary_node, groups_left, parse_expression-grouping}

abbrev name : Tk
name = of_type ETk.alnumus_

abbrev plus : Tk
plus = of_type ETk.addition_

abbrev times : Tk
times = of_type ETk.multiplication_

abbrev opening : Tk
opening = of_type ETk.open_paren_

abbrev closing : Tk
closing = of_type ETk.close_paren_

role-name : role name ≡ operand
unfolding tk_type_operation
role-name = refl

role-plus : role plus ≡ binary
unfolding tk_type_operation
role-plus = refl

role-times : role times ≡ binary
unfolding tk_type_operation
role-times = refl

-- `(x + x) * x`
abbrev product : List Tk
product = opening ∷ name ∷ plus ∷ name ∷ closing ∷ times ∷ name ∷ []

abbrev product_tree : Ast
product_tree = binary_node times (binary_node plus (of_token name) (of_token name)) (of_token name)

product-Spells : Spells product product_tree
product-Spells =
    between times (opening ∷ name ∷ plus ∷ name ∷ closing ∷ []) (name ∷ []) _ _ role-times
      (grouped opening closing (name ∷ plus ∷ name ∷ []) _ (unfold kind_turn in refl)
        (unfold kind_turn in refl)
        (between plus (name ∷ []) (name ∷ []) _ _ role-plus (single name role-name)
          (single name role-name)))
      (single name role-name)

parse_expression_impl-Spells_example : parse_expression_impl product ≡ ok product_tree
parse_expression_impl-Spells_example =
    parse_expression_impl-Spells product product_tree product-Spells

parse_expression-grouping_example :
    parse_expression (name ∷ plus ∷ name ∷ times ∷ name ∷ [])
    ≡ ok (
        if groups_left plus times
        then product_tree
        else binary_node plus (of_token name) (binary_node times (of_token name) (of_token name)))
parse_expression-grouping_example =
    parse_expression-grouping name name name plus times role-name role-name role-name role-plus
      role-times

-- `x + x * x` does not group to the left.
plus_below : groups_left plus times ≡ false
unfolding tk_type_priority tk_type_assoc priority_value
plus_below = refl

parenthesize_expression-strip_example :
    Ensures (λ us. strip us ≡ strip product) (parenthesize_expression product)
parenthesize_expression-strip_example = parenthesize_expression-strip product

parse_expression-Defined_example : Defined (parse_expression product)
parse_expression-Defined_example = parse_expression-Defined product

parse_expression_impl_ignores_rest_example :
    parse_expression_impl (name ∷ plus ∷ name ∷ closing ∷ times ∷ [])
    ≡ ok (binary_node plus (of_token name) (of_token name))
parse_expression_impl_ignores_rest_example =
    parse_expression_impl_ignores_rest name plus name (closing ∷ times ∷ []) role-name role-plus
      role-name

pop_back-push_back_example :
    (pop_back (push_back product_tree (of_token name)) ≡ some (product_tree, of_token name))
    × (pop_front (push_front product_tree (of_token name)) ≡ some (product_tree, of_token name))
    × (ast_back (push_back product_tree (of_token name)) ≡ some (of_token name))
pop_back-push_back_example = pop_back-push_back product_tree (of_token name)
