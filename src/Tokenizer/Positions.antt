-- ===== src/Tokenizer/Positions.antt =====
-- The tokens of a run tile the text, and what their lines and columns are.
use cand_lang_proto.Base.{
  ℕ, zero, suc, ◌+◌, ◌-◌, ◌≤◌, ◌<◌, List, [], ◌∷◌, ◌++◌, ◌≡◌, refl, sym, ap, ap₂, subst, ◌∙◌, arith,
  append-nil, append_assoc, length, take, drop, slice, length-take, length-append,
}
use cand_lang_proto.Expected.{make_success}
use cand_lang_proto.Syntax.Token.{Tk}
use cand_lang_proto.Tokenizer.Cursor.{Text}
use cand_lang_proto.Tokenizer.Run.{
  State, initial, count_newlines, column, sanitize, returns, tokenize,
}
use cand_lang_proto.Tokenizer.Rules.{Step, step, Steps, here, next, tokenize-success}

-- The tokens stand one behind the other from `a` on. The line of each is one more than the
-- newlines in front of its end; its column is counted by `column`.
abbrev pub Placed : Text → ℕ → List Tk → Type 0
Placed src a [] = Unit {0}
Placed src a (t ∷ ts) =
    let end = a + length t.literal in
    (a < end)
    × (t.literal ≡ slice src a end)
    × (t.line ≡ 1 + count_newlines src 0 end)
    × (t.col ≡ column src a end)
    × Placed src end ts

-- The text that tokens spell.
abbrev pub literals : List Tk → Text
literals [] = []
literals (t ∷ ts) = t.literal ++ literals ts

length-slice : (src : Text) (i j : ℕ) → i ≤ j → j ≤ length src → length (slice src i j) ≡ j - i
length-slice [] zero j h k = length-take (j - 0) [] (omega arith)
length-slice [] (suc i) j h k = absurd (omega arith)
length-slice (c ∷ src) zero j h k = length-take (j - 0) (c ∷ src) (omega arith)
length-slice (c ∷ src) (suc i) zero h k = absurd (omega arith)
length-slice (c ∷ src) (suc i) (suc j) h k =
    let same : suc j - suc i ≡ j - i = omega arith in
    rw same (length-slice src i j (omega arith) (omega arith))

count_newlines-add :
    (src : Text) (it m n : ℕ)
    → count_newlines src it (m + n) ≡ count_newlines src it m + count_newlines src (it + m) n
unfolding count_newlines
count_newlines-add src it zero n =
    let e : 0 + n ≡ n = omega arith in let f : it + 0 ≡ it = omega arith in rw (e, f) (omega arith)
count_newlines-add src it (suc m) n =
    let e : suc m + n ≡ suc (m + n) = omega arith in
    let f : it + suc m ≡ it + 1 + m = omega arith in
    rw (e, f) (omega (arith, count_newlines-add src (it + 1) m n))

take-add : (xs : Text) (m n : ℕ) → take m xs ++ take n (drop m xs) ≡ take (m + n) xs
take-add xs zero n = let e : 0 + n ≡ n = omega arith in rw e
take-add [] (suc m) zero = let e : suc m + 0 ≡ suc m = omega arith in rw e
take-add [] (suc m) (suc n) = let e : suc m + suc n ≡ suc (m + suc n) = omega arith in rw e
take-add (x ∷ xs) (suc m) n =
    let e : suc m + n ≡ suc (m + n) = omega arith in rw e (ap (◌∷◌ x) (take-add xs m n))

drop-add : (xs : Text) (m n : ℕ) → drop n (drop m xs) ≡ drop (m + n) xs
drop-add xs zero n = let e : 0 + n ≡ n = omega arith in rw e
drop-add [] (suc m) zero = let e : suc m + 0 ≡ suc m = omega arith in rw e
drop-add [] (suc m) (suc n) = let e : suc m + suc n ≡ suc (m + suc n) = omega arith in rw e
drop-add (x ∷ xs) (suc m) n =
    let e : suc m + n ≡ suc (m + n) = omega arith in rw e (drop-add xs m n)

-- Adjacent slices join.
slice-append :
    (src : Text) (i m n : ℕ)
    → slice src i (i + m) ++ slice src (i + m) (i + m + n) ≡ slice src i (i + m + n)
slice-append src i m n =
    let a : i + m - i ≡ m = omega arith in
    let b : i + m + n - (i + m) ≡ n = omega arith in
    let c : i + m + n - i ≡ m + n = omega arith in
    rw (a, b, c, ← drop-add src i m) (take-add (drop i src) m n)

take_all : (src : Text) → take (length src) src ≡ src
take_all [] = refl
take_all (c ∷ src) = ap (◌∷◌ c) (take_all src)

slice_all : (src : Text) (j : ℕ) → j ≡ length src → slice src 0 j ≡ src
slice_all src j e = let f : j - 0 ≡ length src = omega arith in rw f (take_all src)

-- Tokens in their places spell the text that they span.
Placed-literals :
    (src : Text) (a : ℕ) (ts : List Tk)
    → Placed src a ts
    → literals ts ≡ slice src a (a + length (literals ts))
Placed-literals src a [] h = let e : a + 0 - a ≡ 0 = omega arith in rw e
Placed-literals src a (t ∷ ts) (l, s, n, c, h) =
    let m = length t.literal in
    let k = length (literals ts) in
    let e : a + length (t.literal ++ literals ts) ≡ a + m + k =
      omega (arith, length-append t.literal (literals ts)) in
    rw e (ap₂ ◌++◌ s (Placed-literals src (a + m) ts h) ∙ slice-append src a m k)

Placed-concat :
    (src : Text) (a : ℕ) (ts : List Tk) (t : Tk)
    → Placed src a ts
    → Placed src (a + length (literals ts)) (t ∷ [])
    → Placed src a (ts ++ t ∷ [])
Placed-concat src a [] t h p =
    let e : a + 0 ≡ a = omega arith in subst (λ x. Placed src x (t ∷ [])) e p
Placed-concat src a (u ∷ ts) t (l, s, n, c, h) p =
    let e : a + length (u.literal ++ literals ts) ≡ a + length u.literal + length (literals ts) =
      omega (arith, length-append u.literal (literals ts)) in
    (
      l,
      s,
      n,
      c,
      Placed-concat src (a + length u.literal) ts t h (subst (λ x. Placed src x (t ∷ [])) e p),
    )

literals-concat : (ts : List Tk) (t : Tk) → literals (ts ++ t ∷ []) ≡ literals ts ++ t.literal
literals-concat [] t = append-nil t.literal
literals-concat (u ∷ ts) t =
    rw (literals-concat ts t) (sym (append_assoc u.literal (literals ts) t.literal))

record Tiled (src : Text) (st : State) : Type 0 where
  placed : Placed src 0 st.output_tokens
  reached : length (literals st.output_tokens) ≡ st.it
  line_is : st.current_line ≡ 1 + count_newlines src 0 st.it

initial-Tiled : (src : Text) → Tiled src initial
unfolding count_newlines
initial-Tiled src = record { placed = tt; reached = refl; line_is = omega arith }

Step-Tiled : {src : Text} {st u : State} → Step src st u → Tiled src st → Tiled src u
Step-Tiled {src} {st} (step end t h ok) v =
    let size : st.it + length t.literal ≡ end =
      omega (arith, ap length h.literal_is, length-slice src st.it end, h.nonempty, h.inside) in
    let from : 0 + length (literals st.output_tokens) ≡ st.it = omega (arith, v.reached) in
    let start : 0 + st.it ≡ st.it = omega arith in
    let whole : st.it + (end - st.it) ≡ end = omega (arith, h.nonempty) in
    let line : st.current_line + count_newlines src st.it (end - st.it)
        ≡ 1 + count_newlines src 0 end =
      omega
        (arith, v.line_is, rw (whole, start) at (count_newlines-add src 0 st.it (end - st.it))) in
    record {
      placed =
          Placed-concat src 0 st.output_tokens _ v.placed
            (rw (from, size) (h.nonempty, h.literal_is, line, refl, tt));
      reached =
          rw (literals-concat st.output_tokens)
            (omega (arith, length-append (literals st.output_tokens) t.literal, v.reached, size));
      line_is = line;
    }

Steps-Tiled : {src : Text} {st : State} → Steps src initial st → Tiled src st
Steps-Tiled here = initial-Tiled _
Steps-Tiled (next r s) = Step-Tiled s (Steps-Tiled r)

-- Where the tokenizer succeeds, its lexers have split the text into tokens, none of them empty,
-- that stand one behind the other and together spell the whole text. The line of each is one more
-- than the newlines in front of its end. The result has those of them that are kept.
pub tokenize_lossless :
    (src : Text) {ts : List Tk}
    → tokenize src ≡ returns (make_success ts)
    → (out : List Tk) × (literals out ≡ src) × Placed src 0 out × (ts ≡ sanitize out)
tokenize_lossless src e =
    let (st, r, end, kept) = tokenize-success src e in
    let v = Steps-Tiled r in
    let spelt = Placed-literals src 0 st.output_tokens v.placed in
    (st.output_tokens, spelt ∙ slice_all src _ (omega (arith, v.reached, end)), v.placed, kept)
