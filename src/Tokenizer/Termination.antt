-- ===== src/Tokenizer/Termination.antt =====
-- When the loops of Candi_Compiler/tokenizer.hpp end: `tokenize` returns unless a lexer runs past
-- the end of the text, which the lexers of quotations and block comments may do.
use cand_lang_proto.Base.{
  ℕ, suc, ◌+◌, ◌≤◌, true, false, List, [], ◌∷◌, ◌≡◌, ◌≢◌, refl, ◌∙◌, arith, length, ◌==◌, Option,
  none, some,
}
use cand_lang_proto.Expected.{Expected}
use cand_lang_proto.Syntax.Token.{Tk}
use cand_lang_proto.Syntax.TokenKind.{tk_eq}
use cand_lang_proto.Tokenizer.Cursor.{Text, LexResult, get, search_forward, make_none_result}
use cand_lang_proto.Tokenizer.Lexers.{
  Lexer, closes_quote, lex_solidus, lex_quotation, lex_newline, lex_whitespace, lex_eof, lex_number,
  lex_alnumus, lex_directive,
}
use cand_lang_proto.Tokenizer.Operators.{lex_operator, lex_scopes, lex_eos, lex_comma, lex_period}
use cand_lang_proto.Tokenizer.Run.{
  State, initial, Performed, runs_on, no_match, fails, matches, accept_token, perform, perform_lex,
  lexers, try_lexers, Outcome, returns, diverges, tokenize_from, tokenize,
}
use cand_lang_proto.Tokenizer.Rules.{Ends, complete, stopped, tokenize-Ends}
use cand_lang_proto.Tokenizer.Scan.{search_forward-none}

-- A lexer that returns wherever it is started in a text without quotations and slashes.
abbrev pub Returns : Text → Lexer → Type 0
Returns src l = (it : ℕ) → l src it ≢ none

-- Every lexer of a list returns.
pub data AllReturn (src : Text) : List Lexer → Type 0 where
  nil : AllReturn src []
  cons : {l : Lexer} {ls : List Lexer} → Returns src l → AllReturn src ls → AllReturn src (l ∷ ls)

perform_returns : (src : Text) (st : State) (r : LexResult) → perform src st r ≢ runs_on
unfolding perform accept_token
perform_returns src st r e = ground arith

perform_lex_returns :
    (src : Text) (st : State) (l : Lexer) → l src st.it ≢ none → perform_lex src st l ≢ runs_on
unfolding perform_lex
perform_lex_returns src st l = go (l src st.it)
  where
    go :
        (r : Option LexResult)
        → r ≢ none
        → elim r [ none ↦ runs_on | some r' ↦ perform src st r' ] ≢ runs_on
    go none h e = h refl
    go (some r) h e = perform_returns src st r e

try_lexers_returns :
    (src : Text) (st : State) {ls : List Lexer} → AllReturn src ls → try_lexers src st ls ≢ runs_on
unfolding try_lexers
try_lexers_returns src st nil e = cc
try_lexers_returns src st (cons {l} {ls} h all) e =
    go (try_lexers_returns src st all) (perform_lex src st l)
      (perform_lex_returns src st l (h st.it)) e
  where
    go :
        try_lexers src st ls ≢ runs_on
        → (p : Performed) → p ≢ runs_on
        → elim p [
          | no_match ↦ try_lexers src st ls
          | runs_on ↦ runs_on
          | fails line col message ↦ fails line col message
          | matches st' ↦ matches st'
        ]
          ≢ runs_on
    go later no_match k e = later e
    go later runs_on k e = k refl
    go later (fails line col message) k e = cc
    go later (matches st') k e = cc

module _ (src : Text) where
  solidus-Returns : ((j : ℕ) → (get src j == b'/') ≡ false) → Returns src lex_solidus
  unfolding lex_solidus
  solidus-Returns h it e = cc (rw (h it) at e)

  quotation-Returns : ((j : ℕ) → (get src j == b'\'') ≡ false) → Returns src lex_quotation
  unfolding lex_quotation
  quotation-Returns h it e = cc (rw (h it) at e)

  newline-Returns : Returns src lex_newline
  unfolding lex_newline
  newline-Returns it e = ground arith

  whitespace-Returns : Returns src lex_whitespace
  unfolding lex_whitespace
  whitespace-Returns it e = ground arith

  eof-Returns : Returns src lex_eof
  unfolding lex_eof
  eof-Returns it e = ground arith

  directive-Returns : Returns src lex_directive
  unfolding lex_directive
  directive-Returns it e = ground arith

  number-Returns : Returns src lex_number
  unfolding lex_number
  number-Returns it e = ground arith

  alnumus-Returns : Returns src lex_alnumus
  unfolding lex_alnumus
  alnumus-Returns it e = ground arith

  operator-Returns : Returns src lex_operator
  unfolding lex_operator
  operator-Returns it e = cc

  scopes-Returns : Returns src lex_scopes
  unfolding lex_scopes
  scopes-Returns it e = cc

  eos-Returns : Returns src lex_eos
  unfolding lex_eos
  eos-Returns it e = cc

  comma-Returns : Returns src lex_comma
  unfolding lex_comma
  comma-Returns it e = cc

  period-Returns : Returns src lex_period
  unfolding lex_period
  period-Returns it e = cc

lexers-AllReturn :
    (src : Text)
    → ((j : ℕ) → (get src j == b'\'') ≡ false)
    → ((j : ℕ) → (get src j == b'/') ≡ false)
    → AllReturn src lexers
lexers-AllReturn src quotes slashes = cons (solidus-Returns src slashes) (
    cons (quotation-Returns src quotes) (
      cons (newline-Returns src) (
        cons (whitespace-Returns src) (
          cons (eof-Returns src) (
            cons (directive-Returns src) (
              cons (number-Returns src) (
                cons (alnumus-Returns src) (
                  cons (operator-Returns src) (
                    cons (scopes-Returns src) (
                      cons (eos-Returns src)
                        (cons (comma-Returns src) (cons (period-Returns src) nil))))))))))))

-- In a text without apostrophes and slashes every lexer returns, wherever it is started, and so does
-- the tokenizer: with tokens, or with an error.
pub tokenize_returns :
    (src : Text)
    → ((j : ℕ) → (get src j == b'\'') ≡ false)
    → ((j : ℕ) → (get src j == b'/') ≡ false)
    → AllReturn src lexers × ((result : Expected (List Tk)) × (tokenize src ≡ returns result))
tokenize_returns [] quotes slashes =
    (lexers-AllReturn [] quotes slashes, unfold tokenize in (_, refl))
tokenize_returns (c ∷ src) quotes slashes = (all, go (tokenize-Ends (c ∷ src) cc))
  where
    all : AllReturn (c ∷ src) lexers
    all = lexers-AllReturn (c ∷ src) quotes slashes

    go :
        {o : Outcome}
        → Ends (c ∷ src) initial o
        → (result : Expected (List Tk)) × (o ≡ returns result)
    go (complete st r end) = (_, refl)
    go (stopped st runs_on r h t m) = absurd (try_lexers_returns (c ∷ src) st all t)
    go (stopped st no_match r h t m) = (_, refl)
    go (stopped st (fails line col message) r h t m) = (_, refl)
    go (stopped st (matches st') r h t m) = absurd (m tt)

-- The loop of `lex_quotation` has no end for an apostrophe that is never closed: however many
-- rounds it is given, it finds nothing.
unclosed_quote :
    (src : Text)
    → ((j : ℕ) → 1 ≤ j → closes_quote src j ≡ false)
    → (rounds : ℕ) → search_forward closes_quote rounds src 1 ≡ none
unclosed_quote src k rounds = search_forward-none closes_quote src rounds 1 k

module _ (src : Text) (st : State) where
  perform_lex_passes :
      (l : Lexer)
      → l src st.it ≡ some (make_none_result src st.it)
      → perform_lex src st l ≡ no_match
  unfolding perform_lex perform make_none_result tk_eq
  perform_lex_passes l = go (l src st.it)
    where
      go :
          (r : Option LexResult)
          → r ≡ some (make_none_result src st.it)
          → elim r [ none ↦ runs_on | some r' ↦ perform src st r' ] ≡ no_match
      go none e = cc
      go (some r) e = let same : r ≡ make_none_result src st.it = cc in rw same refl

  perform_lex_runs : (l : Lexer) → l src st.it ≡ none → perform_lex src st l ≡ runs_on
  unfolding perform_lex
  perform_lex_runs l = go (l src st.it)
    where
      go :
          (r : Option LexResult)
          → r ≡ none
          → elim r [ none ↦ runs_on | some r' ↦ perform src st r' ] ≡ runs_on
      go none e = refl
      go (some r) e = cc

  try_passed :
      (l : Lexer) (ls : List Lexer)
      → perform_lex src st l ≡ no_match
      → try_lexers src st (l ∷ ls) ≡ try_lexers src st ls
  unfolding try_lexers
  try_passed l ls e = rw (e, try_lexers) refl

  try_runs :
      (l : Lexer) (ls : List Lexer)
      → perform_lex src st l ≡ runs_on
      → try_lexers src st (l ∷ ls) ≡ runs_on
  unfolding try_lexers
  try_runs l ls e = rw (e, try_lexers) refl

quote_first :
    (src : Text) → (get src 0 == b'\'') ≡ true → lex_solidus src 0 ≡ some (make_none_result src 0)
unfolding lex_solidus
quote_first src h = let other : (get src 0 == b'/') ≡ false = ground arith in rw other refl

quotation_runs :
    (src : Text)
    → (get src 0 == b'\'') ≡ true
    → ((j : ℕ) → 1 ≤ j → closes_quote src j ≡ false)
    → lex_quotation src 0 ≡ none
unfolding lex_quotation
quotation_runs src h k = rw h (
    let never : search_forward closes_quote (suc (length src)) src (0 + 1) ≡ none =
      unclosed_quote src k (suc (length src)) in
    rw never refl)

try_unclosed :
    (src : Text)
    → (get src 0 == b'\'') ≡ true
    → ((j : ℕ) → 1 ≤ j → closes_quote src j ≡ false)
    → try_lexers src initial lexers ≡ runs_on
try_unclosed src h k =
    try_passed src initial lex_solidus _
      (perform_lex_passes src initial lex_solidus (quote_first src h))
    ∙ try_runs src initial lex_quotation _
        (perform_lex_runs src initial lex_quotation (quotation_runs src h k))

-- The tokenizer does not return on a text that starts with an apostrophe that no later one
-- closes: whatever number of rounds its loop is given, the search finds nothing.
pub unclosed-diverges :
    (src : Text)
    → (get src 0 == b'\'') ≡ true
    → ((j : ℕ) → 1 ≤ j → closes_quote src j ≡ false)
    → ((rounds : ℕ) → search_forward closes_quote rounds src 1 ≡ none) × (tokenize src ≡ diverges)
unfolding tokenize tokenize_from
unclosed-diverges [] h k = absurd (unfold get in cc h)
unclosed-diverges (c ∷ src) h k =
    let a : (length (c ∷ src) == 0) ≡ false = ground arith in
    let b : (0 == length (c ∷ src)) ≡ false = ground arith in
    (unclosed_quote (c ∷ src) k, rw (a, b, try_unclosed (c ∷ src) h k) refl)
