-- ===== src/Lib.antt =====
-- The C& compiler prototype: from the text of a file to tokens, from tokens to scopes, and from the
-- tokens of an expression to its tree.
--
-- A file's text goes to the tokenizer (Candi_Compiler/tokenizer.hpp), which tries its lexers in a
-- fixed order at a cursor and gives a vector of tokens with line and column, without comments and
-- white space. Tokens, their kinds and the tables over them are in Candi_Compiler/cand_syntax.hpp;
-- the classes of characters in Candi_Compiler/char_traits.hpp; results with an error message in
-- Candi_Compiler/global_dependencies/libcsl.hpp; the texts of errors in
-- Candi_Compiler/compiler_error.hpp. The parser's cursors and the search for scopes over a vector
-- of tokens are in Candi_Compiler/token_iterator.hpp. An expression's tokens are parenthesized by the
-- priorities of their operators, and what is parenthesized is parsed
-- (Candi_Compiler/parenthesizer.hpp): both use the search for scopes, and the tables over tokens.
--
-- Base: the names that the modules share. Lists are measured by native numbers.
-- Syntax: Candi_Compiler/cand_syntax.hpp. TokenKind, NodeKind, Operators, Names, NodeNames,
--   OperatorNames, TokenNode, Kinds and Keywords have the enumerations, tables and constants, Token
--   the class tk, Ast the class ast. Equality is about comparisons, Tables about the tables among
--   themselves, AstChildren about the children of a node.
-- Chars: Candi_Compiler/char_traits.hpp; Chars/Ranges compares the classes.
-- Expected: sl_partial_expected, sl_expected and sl_boolerror.
-- Tokenizer: Candi_Compiler/tokenizer.hpp. Cursor has the utilities get, peek, find_forward and
--   make_result; Words the two chains of keyword tests in lex_directive; Lexers and Operators the
--   lexers; Messages the error texts; Run the method tokenize with its lambdas swap_keyword_syntax,
--   perform_lex and sanitize, and operator(). The variables
--   of tokenize are the record State. Spelling and LongestOperator are about operators, Prefixes
--   about keywords; Scan, Sound and Bounds about the cursor and single lexers, Rules about runs as
--   steps, the others about the result: Positions, Columns, KeywordSyntax, Sanitize, Termination.
-- Scopes: Candi_Compiler/token_iterator.hpp. Iterator has tk_iterator, Scope the results of type
--   tk_scope, Find the functions find_paren, find_brace and find_bracket, Separated the functions
--   find_seperated_paren, find_seperated_brace and find_seperated_bracket, Statement find_statement,
--   OpenStatement find_open_statement and find_program_statement. The copies for the three shapes
--   of scopes are one function of the shape. Balanced says what a scope is, SeparatedParts what
--   its parts between separators are; IteratorBounds is about cursors; FindSound, FindComplete and
--   Depths, SeparatedKinds, SeparatedSound and SeparatedComplete, StatementLoop and StatementFound,
--   OpenStatementLoop and OpenStatementFound are about the searches.
-- Expression: Candi_Compiler/parenthesizer.hpp. Closure has the class closure, ClosureList the class
--   closure_list with its resolutions, Parenthesizer the class parenthesizer and parse_expression,
--   Parse the function parse_expression_impl; Outcome the ways in which these end. Spelling says
--   which tokens spell which tree; ParseSteps, ParseRoundTrip and ParseFuel are about parsing.
--   OperatorLevels, Strip, Stack, Resolve and ResolveLoops are about closure lists, Actions, Skipped,
--   Rounds, Operands and Parenthesized about the rounds of a parenthesizer, Precedence, TwoOperators
--   and Grouping about two operators between three operands.
-- Legacy: the older generation of tokens. TokenType and Token are Candi_Compiler/token.hpp, Macros is
--   Candi_Compiler/macro_expander.hpp, Preprocessor is Candi_Compiler/preprocessor.hpp; both read
--   tokens by tk_cursor of Candi_Compiler/parser_utils.hpp. Expands says what code with macros
--   expands to, Includes what code with includes is preprocessed to.
-- Evaluator: the class rtenv of Candi_Compiler/constant_evaluator.hpp. Environment has its operations,
--   on an environment and its parents from itself outwards; Lookup is about what names stand for.
-- Tests: the models run on small inputs.
--
-- Characters are byte values, a text is the list of them, and an iterator is its distance from the
-- begin of its range, for a cursor over tokens a signed one. Lines, columns and depths are unbounded: texts are far shorter than 2^31.
-- Loops that stop at the end of the text have its length as fuel; the main loop consumes a byte in
-- each round, so that as many rounds as bytes are enough. The loops for the end of a quotation or a
-- block comment do not test for the end of the text. They are given one round more than the text
-- has bytes, and a search that fails is the outcome that the program does not return; behind the
-- end of the text nothing closes, where the program reads what its memory holds.
--
-- An iterator into the output of a parenthesizer is the number of its node with the node's token, and
-- a closure list is listed last first, so that an iterator into it is the rest of the list. A read in
-- front of the first closure and a failed assertion are the outcome `undefined`. A resolution takes
-- a closure away at least, a round of a parenthesizer takes a token or turns from an operand to an
-- operator, and the inside of parentheses is shorter: these are the bounds from which the loops and
-- the recursions have their fuel.
--
-- The preprocessor takes as a parameter what a file gives, since reading files is not the program's
-- and the tokenizer of the older tokens is not in the repository. Its fuel is the depth of includes,
-- which nothing bounds in the program: files that include each other have no end. The macro expander
-- has one round for each token and one more, which a round that moves past no token can exceed.
--
-- Not modelled: the parent pointers of the class ast, the unused scan_tokens of the scopes, and the
-- older parser and what evaluates its nodes (Candi_Compiler/parser.hpp,
-- Candi_Compiler/parser_utils.hpp, Candi_Compiler/constant_evaluator.hpp), which the pipeline above
-- does not call; the driver and the tests.
mod Base
pub mod Syntax
pub mod Chars
pub mod Expected
pub mod Tokenizer
pub mod Scopes
pub mod Expression
pub mod Legacy
pub mod Evaluator
mod Tests
