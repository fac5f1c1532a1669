-- ===== src/Tokenizer/Sanitize.antt =====
-- What `sanitize` of Candi_Compiler/tokenizer.hpp leaves of the tokens.
use cand_lang_proto.Base.{
  false, List, [], ◌∷◌, ◌++◌, ◌≡◌, ◌≢◌, ap, arith, Bool-cases, inl, inr, refl,
}
use cand_lang_proto.Expected.{make_success}
use cand_lang_proto.Syntax.Token.{Tk}
use cand_lang_proto.Syntax.TokenKind.{ETk, tk_eq}
use cand_lang_proto.Syntax.Equality.{tk_eq_iff}
use cand_lang_proto.Tokenizer.Cursor.{Text}
use cand_lang_proto.Tokenizer.Run.{sanitize, is_redundant, returns, tokenize}
use cand_lang_proto.Tokenizer.Rules.{tokenize-success}

-- A token that is none of white space, a newline and a comment.
abbrev pub IsKept : Tk → Type 0
IsKept t =
    (t.kind ≢ ETk.whitespace_)
    × (t.kind ≢ ETk.newline_)
    × (t.kind ≢ ETk.line_comment_)
    × (t.kind ≢ ETk.block_comment_)

abbrev pub AllKept : List Tk → Type 0
AllKept [] = Unit {0}
AllKept (t ∷ ts) = IsKept t × AllKept ts

is_redundant-IsKept : (t : Tk) → is_redundant t ≡ false → IsKept t
unfolding tk_eq
is_redundant-IsKept t h =
    (λ e. cc (rw e at h), λ e. cc (rw e at h), λ e. cc (rw e at h), λ e. cc (rw e at h))

IsKept-is_redundant : (t : Tk) → IsKept t → is_redundant t ≡ false
IsKept-is_redundant t (a, b, c, d) = ground (
  arith,
  tk_eq_iff t.kind ETk.whitespace_,
  tk_eq_iff t.kind ETk.newline_,
  tk_eq_iff t.kind ETk.line_comment_,
  tk_eq_iff t.kind ETk.block_comment_,
)

pub sanitize-AllKept : (ts : List Tk) → AllKept (sanitize ts)
unfolding sanitize
sanitize-AllKept [] = tt
sanitize-AllKept (t ∷ ts) = elim (Bool-cases (is_redundant t)) [
  | inl dropped ↦ rw dropped (sanitize-AllKept ts)
  | inr kept ↦ rw kept (is_redundant-IsKept t kept, sanitize-AllKept ts)
]

pub sanitize-id : (ts : List Tk) → AllKept ts → sanitize ts ≡ ts
unfolding sanitize
sanitize-id [] h = refl
sanitize-id (t ∷ ts) (k, h) = rw (IsKept-is_redundant t k) (ap (◌∷◌ t) (sanitize-id ts h))

pub sanitize-append : (ts us : List Tk) → sanitize (ts ++ us) ≡ sanitize ts ++ sanitize us
unfolding sanitize
sanitize-append [] us = refl
sanitize-append (t ∷ ts) us = elim (Bool-cases (is_redundant t)) [
  | inl dropped ↦ rw dropped (sanitize-append ts us)
  | inr kept ↦ rw kept (ap (◌∷◌ t) (sanitize-append ts us))
]

-- The tokens of a success hold no white space, no newline and no comment, so that to sanitize them
-- once more changes nothing.
pub tokenize_sanitized :
    (src : Text) {ts : List Tk}
    → tokenize src ≡ returns (make_success ts)
    → AllKept ts × (sanitize ts ≡ ts)
tokenize_sanitized src e =
    let (st, r, end, kept) = tokenize-success src e in
    let h = sanitize-AllKept st.output_tokens in
    rw kept (h, sanitize-id (sanitize st.output_tokens) h)
