-- ===== src/Tokenizer/Bounds/Literals.antt =====
-- The lexers of comments, quotes, spaces and the end of the file are sound.
use cand_lang_proto.Base.{
  ℕ, suc, ◌+◌, ◌≤◌, ◌<◌, true, not, ◌&&◌, ◌≡◌, refl, arith, length, ◌==◌, if◌then◌else◌,
  Option-cases, none, some, inl, inr, ==_iff,
}
use cand_lang_proto.Chars.{is_newline, is_whitespace}
use cand_lang_proto.Syntax.TokenKind.{ETk}
use cand_lang_proto.Syntax.Keywords.{block_comment}
use cand_lang_proto.Tokenizer.Cursor.{Text, get, peek, search_forward, make_result}
use cand_lang_proto.Tokenizer.Lexers.{
  in_line, closes_quote, closes_comment, lex_solidus, lex_quotation, lex_newline, lex_whitespace,
  lex_eof,
}
use cand_lang_proto.Tokenizer.Scan.{get-lt, find_forward-slice, search_forward_sound}
use cand_lang_proto.Tokenizer.Sound.{
  Sound, stuck, Sound-if, Sound-result, Sound-none, byte_inside, Sound-loop,
}

slash-in_line : (c : ℕ) → (c == b'/') ≡ true → in_line c ≡ true
unfolding is_newline
slash-in_line c h = rw ((==_iff c b'/').0 h)

closes_quote-lt : (src : Text) (q : ℕ) → closes_quote src q ≡ true → q < length src
unfolding closes_quote
closes_quote-lt src q h = get-lt src q (ground arith)

closes_comment-le : (src : Text) (q : ℕ) → closes_comment src q ≡ true → q + 3 ≤ length src
unfolding closes_comment
closes_comment-le src q h = (find_forward-slice src q block_comment h).0

-- The block comment that opens at `it`, where it is closed.
block :
    (src : Text) (it : ℕ)
    → it < length src
    → Sound src it (elim (search_forward closes_comment (suc (length src)) src (it + 3)) [
      | none ↦ none
      | some close ↦ some (make_result src ETk.block_comment_ it (close + 3))
    ])
block src it h =
    elim (Option-cases (search_forward closes_comment (suc (length src)) src (it + 3))) [
      | inl runs_on ↦ rw runs_on stuck
      | inr (q, e) ↦
          let found = search_forward_sound closes_comment src (suc (length src)) (it + 3) e in
          rw e (
            Sound-result src it ETk.block_comment_ (q + 3) (cc) (omega (arith, found.0))
              (omega (arith, closes_comment-le src q found.1)))
    ]

-- The literal that opens at `it`, where it is closed.
quoted :
    (src : Text) (it : ℕ)
    → it < length src
    → Sound src it (elim (search_forward closes_quote (suc (length src)) src (it + 1)) [
      | none ↦ none
      | some close ↦
          if get src (close + 1) == b'c'
          then some (make_result src ETk.byte_literal_ it (close + 2))
          else some (make_result src ETk.string_literal_ it (close + 1))
    ])
quoted src it h =
    elim (Option-cases (search_forward closes_quote (suc (length src)) src (it + 1))) [
      | inl runs_on ↦ rw runs_on stuck
      | inr (q, e) ↦
          let found = search_forward_sound closes_quote src (suc (length src)) (it + 1) e in
          let inside = closes_quote-lt src q found.1 in
          rw e (
            Sound-if src it (get src (q + 1) == b'c')
              (λ byte.
                Sound-result src it ETk.byte_literal_ (q + 2) (cc) (omega (arith, found.0))
                  (omega (arith, byte_inside src (q + 1) b'c' byte (omega arith))))
              (λ _.
                Sound-result src it ETk.string_literal_ (q + 1) (cc) (omega (arith, found.0))
                  (omega arith)))
    ]

pub lex_newline-Sound : (src : Text) (it : ℕ) → it < length src → Sound src it (lex_newline src it)
unfolding lex_newline
lex_newline-Sound src it h =
    Sound-if src it (is_newline (get src it))
      (λ go. Sound-loop is_newline (unfold is_newline in refl) src it ETk.newline_ (cc) h go)
      (λ _. Sound-none src it)

pub lex_whitespace-Sound :
    (src : Text) (it : ℕ) → it < length src → Sound src it (lex_whitespace src it)
unfolding lex_whitespace
lex_whitespace-Sound src it h =
    Sound-if src it (is_whitespace (get src it))
      (λ go.
        Sound-loop is_whitespace (unfold is_whitespace in refl) src it ETk.whitespace_ (cc) h go)
      (λ _. Sound-none src it)

pub lex_eof-Sound : (src : Text) (it : ℕ) → it < length src → Sound src it (lex_eof src it)
unfolding lex_eof
lex_eof-Sound src it h =
    Sound-if src it (get src it == 0)
      (λ _. Sound-result src it ETk.eof_ (it + 1) (cc) (omega arith) (omega arith))
      (λ _. Sound-none src it)

pub lex_quotation-Sound :
    (src : Text) (it : ℕ) → it < length src → Sound src it (lex_quotation src it)
unfolding lex_quotation
lex_quotation-Sound src it h =
    Sound-if src it (get src it == b'\'') (λ _. quoted src it h) (λ _. Sound-none src it)

pub lex_solidus-Sound : (src : Text) (it : ℕ) → it < length src → Sound src it (lex_solidus src it)
unfolding lex_solidus
lex_solidus-Sound src it h =
    Sound-if src it (get src it == b'/')
      (λ slash.
        Sound-if src it (peek src it 1 == b'/' && not (peek src it 2 == b'/'))
          (λ _.
            Sound-loop in_line (unfold is_newline in refl) src it ETk.line_comment_ (cc) h
              (slash-in_line (get src it) slash))
          (λ _.
            Sound-if src it _ (λ _. block src it h)
              (λ _.
                Sound-if src it (get src (it + 1) == b'=')
                  (λ eq.
                    Sound-result src it ETk.division_assignment_ (it + 2) (cc) (omega arith)
                      (omega (arith, byte_inside src (it + 1) b'=' eq (omega arith))))
                  (λ _.
                    Sound-result src it ETk.division_ (it + 1) (cc) (omega arith) (omega arith)))))
      (λ _. Sound-none src it)
