-- ===== src/Tokenizer/Rules.antt =====
-- How a run of the tokenizer goes: an accepted token takes one state to the next, and a property
-- of states that each accepted token keeps holds where the run succeeds.
use cand_lang_proto.Base.{
  ℕ, zero, suc, ◌+◌, ◌-◌, ◌≤◌, ◌<◌, true, false, List, [], ◌∷◌, ◌++◌, ◌≡◌, ◌≢◌, refl, arith, length,
  ◌==◌, ==_iff, Bool-cases, Option, none, some, inl, inr,
}
use cand_lang_proto.Expected.{make_success}
use cand_lang_proto.Syntax.Token.{Tk, set_line, set_col}
use cand_lang_proto.Syntax.TokenKind.{ETk, tk_eq}
use cand_lang_proto.Tokenizer.Cursor.{Text, LexResult}
use cand_lang_proto.Tokenizer.Lexers.{Lexer}
use cand_lang_proto.Tokenizer.Run.{
  State, initial, swap_keyword_syntax, count_newlines, column, Performed, runs_on, no_match, fails,
  matches, accept_token, perform, perform_lex, lexers, try_lexers, sanitize, Outcome, returns,
  report, tokenize_from, tokenize,
}
use cand_lang_proto.Tokenizer.Sound.{Spans, SoundToken, Sound, sound}
use cand_lang_proto.Tokenizer.Bounds.{AllSound, nil, cons, lexers-AllSound}

-- The state after the token `t`, lexed up to `end`.
abbrev pub accepted : Text → State → ℕ → Tk → State
accepted src st end t =
    let line = st.current_line + count_newlines src st.it (end - st.it) in
    let col = column src st.it end in
    record {
      it = end;
      current_line = line;
      current_col = col;
      keyword_syntax = (swap_keyword_syntax st.keyword_syntax t).0;
      output_tokens = st.output_tokens ++ set_col col (set_line line t) ∷ [];
    }

-- A token of the text is accepted, and does not mix the two keyword syntaxes.
pub data Step (src : Text) (st : State) : State → Type 0 where
  step :
      (end : ℕ) (t : Tk)
      → Spans src st.it end t
      → (swap_keyword_syntax st.keyword_syntax t).1.value ≡ true
      → Step src st (accepted src st end t)

-- The states that a run goes through.
pub data Steps (src : Text) (st : State) : State → Type 0 where
  here : Steps src st st
  next : {u v : State} → Steps src st u → Step src u v → Steps src st v

-- What a performed lexer may report.
abbrev Fits : Text → State → Performed → Type 0
Fits src st (matches st') = Step src st st'
Fits src st _ = Unit

accept_token-Fits :
    (src : Text) (st : State) (end : ℕ) (t : Tk)
    → Spans src st.it end t
    → Fits src st (accept_token src st end t)
unfolding accept_token
accept_token-Fits src st end t h =
    elim (Bool-cases (swap_keyword_syntax st.keyword_syntax t).1.value) [
      | inl ok ↦ rw ok (step end t h ok)
      | inr mixed ↦ rw mixed tt
    ]

perform-Fits :
    (src : Text) (st : State) (end : ℕ) (t : Option Tk) (message : List ℕ)
    → SoundToken src st.it end t
    → Fits src st (perform src st (record { always = end; expected = t; error_message = message }))
unfolding perform
perform-Fits src st end none message h = tt
perform-Fits src st end (some t) message (inl e) = rw e (unfold tk_eq in tt)
perform-Fits src st end (some t) message (inr h) = elim (Bool-cases (tk_eq t.kind ETk.none_)) [
  | inl is_none ↦ rw is_none tt
  | inr is_token ↦ rw is_token (accept_token-Fits src st end t h)
]

perform_lex-Fits :
    (src : Text) (st : State) (l : Lexer)
    → Sound src st.it (l src st.it)
    → Fits src st (perform_lex src st l)
unfolding perform_lex
perform_lex-Fits src st l = go (l src st.it)
  where
    go :
        (r : Option LexResult)
        → Sound src st.it r
        → Fits src st (elim r [ none ↦ runs_on | some r' ↦ perform src st r' ])
    go none s = tt
    go (some r) (sound _ h) = perform-Fits src st r.always r.expected r.error_message h

-- One round: the result of the first lexer that does not pass is a step, if it is a match.
pub try_lexers-Fits :
    (src : Text) (st : State) {ls : List Lexer}
    → st.it < length src
    → AllSound ls
    → Fits src st (try_lexers src st ls)
unfolding try_lexers
try_lexers-Fits src st h nil = tt
try_lexers-Fits src st h (cons {l} {ls} s all) =
    go (try_lexers-Fits src st h all) (perform_lex src st l)
      (perform_lex-Fits src st l (s src st.it h))
  where
    go :
        Fits src st (try_lexers src st ls)
        → (p : Performed) → Fits src st p
        → Fits src st (elim p [
          | no_match ↦ try_lexers src st ls
          | runs_on ↦ runs_on
          | fails line col message ↦ fails line col message
          | matches st' ↦ matches st'
        ])
    go later no_match f = later
    go later runs_on f = tt
    go later (fails line col message) f = tt
    go later (matches st') f = f

abbrev pub IsMatch : Performed → Type 0
IsMatch (matches st') = Unit
IsMatch _ = ⊥

-- How a run that started at `s` ends: at the end of the text, with the tokens that are kept; or at
-- a state before it where no lexer matches, one reports an error, or one does not return.
pub data Ends (src : Text) (s : State) : Outcome → Type 0 where
  complete :
      (st : State)
      → Steps src s st
      → st.it ≡ length src
      → Ends src s (returns (make_success (sanitize st.output_tokens)))
  stopped :
      (st : State) (p : Performed)
      → Steps src s st
      → st.it < length src
      → try_lexers src st lexers ≡ p
      → ¬ IsMatch p
      → Ends src s (report src st p)

Step-bounds : {src : Text} {st u : State} → Step src st u → (st.it < u.it) × (u.it ≤ length src)
Step-bounds (step end t h ok) = (h.nonempty, h.inside)

-- As many rounds as there are bytes left are enough: the run ends in one of the two ways.
pub tokenize_from-Ends :
    (fuel : ℕ) (src : Text) (s st : State)
    → Steps src s st
    → st.it ≤ length src
    → length src ≤ st.it + fuel
    → Ends src s (tokenize_from fuel src st)
unfolding tokenize_from
tokenize_from-Ends zero src s st r h f =
    let at_end : st.it ≡ length src = omega arith in
    rw ((==_iff _ _).1 at_end) (complete st r at_end)
tokenize_from-Ends (suc fuel) src s st r h f = elim (Bool-cases (st.it == length src)) [
  | inl end ↦ rw end (complete st r ((==_iff _ _).0 end))
  | inr more ↦
      let inside : st.it < length src = ground arith in
      rw more (
        go inside (λ st' a b c. tokenize_from-Ends fuel src s st' a b c) (try_lexers src st lexers)
          refl (try_lexers-Fits src st inside lexers-AllSound))
]
  where
    go :
        st.it < length src
        → ((st' : State)
            → Steps src s st'
            → st'.it ≤ length src
            → length src ≤ st'.it + fuel
            → Ends src s (tokenize_from fuel src st'))
        → (p : Performed) → try_lexers src st lexers ≡ p
        → Fits src st p
        → Ends src s (elim p [
          | matches st' ↦ tokenize_from fuel src st'
          | runs_on ↦ report src st runs_on
          | no_match ↦ report src st no_match
          | fails line col message ↦ report src st (fails line col message)
        ])
    go i again runs_on e fits = stopped st runs_on r i e (λ m. m)
    go i again no_match e fits = stopped st no_match r i e (λ m. m)
    go i again (fails line col message) e fits = stopped st (fails line col message) r i e (λ m. m)
    go i again (matches st') e fits =
        let bounds = Step-bounds fits in again st' (next r fits) bounds.1 (omega (arith, bounds.0))

-- A run ends at the end of the text, or before it where a round does not match; it never uses up
-- its fuel.
pub tokenize-Ends : (src : Text) → src ≢ [] → Ends src initial (tokenize src)
unfolding tokenize
tokenize-Ends [] h = absurd (h refl)
tokenize-Ends (c ∷ src) h =
    let not_empty : (length (c ∷ src) == 0) ≡ false = ground arith in
    rw not_empty (
      tokenize_from-Ends (length (c ∷ src)) (c ∷ src) initial initial here (omega arith)
        (omega arith))

Ends-complete :
    {src : Text} {s : State} {o : Outcome} {ts : List Tk}
    → Ends src s o
    → o ≡ returns (make_success ts)
    → (st : State) × Steps src s st × (st.it ≡ length src) × (ts ≡ sanitize st.output_tokens)
Ends-complete (complete st r end) e = (st, r, end, cc)
Ends-complete (stopped st runs_on r h t m) e = cc
Ends-complete (stopped st no_match r h t m) e = cc
Ends-complete (stopped st (fails line col message) r h t m) e = cc
Ends-complete (stopped st (matches st') r h t m) e = absurd (m tt)

-- The tokens of a success are what is kept of those of a run to the end of the text.
pub tokenize-success :
    (src : Text) {ts : List Tk}
    → tokenize src ≡ returns (make_success ts)
    → (st : State) × Steps src initial st × (st.it ≡ length src) × (ts ≡ sanitize st.output_tokens)
tokenize-success [] e = absurd (unfold tokenize in cc e)
tokenize-success (c ∷ src) e = Ends-complete (tokenize-Ends (c ∷ src) (cc)) e
