-- ===== src/Tokenizer/KeywordSyntax.antt =====
-- A file keeps to one of the two keyword syntaxes, with '#' or without.
use cand_lang_proto.Base.{
  ℕ, true, Bool, not, ◌||◌, List, [], ◌∷◌, ◌++◌, ◌≡◌, arith, Bool-cases, inl, inr,
}
use cand_lang_proto.Expected.{make_success}
use cand_lang_proto.Syntax.Token.{Tk, is_keyword, set_line, set_col}
use cand_lang_proto.Tokenizer.Cursor.{Text}
use cand_lang_proto.Tokenizer.Run.{
  State, initial, KeywordSyntax, unswitched, directive, keyword, is_hash, swap_keyword_syntax,
  sanitize, is_redundant, returns, tokenize,
}
use cand_lang_proto.Tokenizer.Rules.{Step, step, Steps, here, next, tokenize-success}

-- What the syntax of a file says of a token: it is no keyword yet, or one only with '#', or only
-- without.
abbrev pub conforms : KeywordSyntax → Tk → Bool
conforms unswitched t = not (is_keyword t)
conforms directive t = not (is_keyword t) || is_hash t
conforms keyword t = not (is_keyword t) || not (is_hash t)

abbrev pub AllConform : KeywordSyntax → List Tk → Type 0
AllConform k [] = Unit {0}
AllConform k (t ∷ ts) = (conforms k t ≡ true) × AllConform k ts

AllConform-concat :
    (k : KeywordSyntax) (ts : List Tk) (t : Tk)
    → AllConform k ts
    → conforms k t ≡ true
    → AllConform k (ts ++ t ∷ [])
AllConform-concat k [] t h c = (c, tt)
AllConform-concat k (u ∷ ts) t (d, h) c = (d, AllConform-concat k ts t h c)

-- The switch at a token says what the token is.
swap-conforms :
    (k : KeywordSyntax) (t : Tk)
    → (swap_keyword_syntax k t).1.value ≡ true
    → conforms (swap_keyword_syntax k t).0 t ≡ true
unfolding swap_keyword_syntax
swap-conforms unswitched t ok = ground arith
swap-conforms directive t ok = ground arith
swap-conforms keyword t ok = ground arith

-- It keeps what has been said of the tokens before.
swap_keeps :
    (k : KeywordSyntax) (t u : Tk)
    → conforms k u ≡ true
    → conforms (swap_keyword_syntax k t).0 u ≡ true
unfolding swap_keyword_syntax
swap_keeps unswitched t u c = ground arith
swap_keeps directive t u c = ground arith
swap_keeps keyword t u c = ground arith

record Syntax (st : State) : Type 0 where
  conform : AllConform st.keyword_syntax st.output_tokens

AllConform-swap :
    (k : KeywordSyntax) (t : Tk) (ts : List Tk)
    → AllConform k ts
    → AllConform (swap_keyword_syntax k t).0 ts
AllConform-swap k t [] h = tt
AllConform-swap k t (u ∷ ts) (c, h) = (swap_keeps k t u c, AllConform-swap k t ts h)

-- `set_line` and `set_col` leave what is tested alone.
placed-conforms :
    (k : KeywordSyntax) (t : Tk) (line col : ℕ)
    → conforms k t ≡ true
    → conforms k (set_col col (set_line line t)) ≡ true
placed-conforms unswitched t line col c = c
placed-conforms directive t line col c = c
placed-conforms keyword t line col c = c

Step-Syntax : {src : Text} {st u : State} → Step src st u → Syntax st → Syntax u
Step-Syntax {src} {st} (step end t h ok) v = record {
  conform =
      AllConform-concat _ st.output_tokens _
        (AllConform-swap st.keyword_syntax t st.output_tokens v.conform)
        (placed-conforms _ t _ _ (swap-conforms st.keyword_syntax t ok));
}

Steps-Syntax : {src : Text} {st : State} → Steps src initial st → Syntax st
Steps-Syntax here = record { conform = tt }
Steps-Syntax (next r s) = Step-Syntax s (Steps-Syntax r)

AllConform-sanitize :
    (k : KeywordSyntax) (ts : List Tk) → AllConform k ts → AllConform k (sanitize ts)
unfolding sanitize
AllConform-sanitize k [] h = tt
AllConform-sanitize k (t ∷ ts) (c, h) = elim (Bool-cases (is_redundant t)) [
  | inl dropped ↦ rw dropped (AllConform-sanitize k ts h)
  | inr kept ↦ rw kept (c, AllConform-sanitize k ts h)
]

-- The tokens of a success use one keyword syntax: there is no keyword among them, or every keyword
-- starts with '#', or none does.
pub tokenize_one_syntax :
    (src : Text) {ts : List Tk}
    → tokenize src ≡ returns (make_success ts)
    → (k : KeywordSyntax) × AllConform k ts
tokenize_one_syntax src e =
    let (st, r, end, kept) = tokenize-success src e in
    (
      st.keyword_syntax,
      rw kept (AllConform-sanitize st.keyword_syntax st.output_tokens (Steps-Syntax r).conform),
    )
