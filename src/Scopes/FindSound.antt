-- ===== src/Scopes/FindSound.antt =====
-- What the finders of Candi_Compiler/token_iterator.hpp find is a balanced scope.
use cand_lang_proto.Base.{
  ℕ, suc, ◌+◌, ◌-◌, true, List, [], ◌∷◌, ◌++◌, ◌≡◌, refl, sym, ap, ◌∙◌, arith, length,
  length-append, append_assoc, Bool-cases, inl, inr, ◌<◌,
}
use cand_lang_proto.Syntax.Token.{Tk}
use cand_lang_proto.Scopes.Find.{
  Shape, paren, list, frame, same_shape, Turn, opens, closes, other, turn, is_opening_of,
  is_closing_of, Loop, start, push, pop, Round, goes_on, breaks, mismatch, round, close_round, scan,
  LoopEnd, closed_at, mismatched, exhausted, conclude, after_loop, find_scope,
}
use cand_lang_proto.Scopes.Balanced.{Balanced, empty, plain, group, Group, append-Balanced}

pub same_shape_sound : (s s' : Shape) → same_shape s s' ≡ true → s ≡ s'
same_shape_sound paren paren h = refl
same_shape_sound list list h = refl
same_shape_sound frame frame h = refl
same_shape_sound paren list h = cc
same_shape_sound paren frame h = cc
same_shape_sound list paren h = cc
same_shape_sound list frame h = cc
same_shape_sound frame paren h = cc
same_shape_sound frame list h = cc

-- The tokens that close the scopes of the stack `h`, from its top, and then the scope `own`, with
-- balanced tokens in front of each; `n` of them are in front of the last.
data Segments (own : Shape) : List Shape → List Tk → ℕ → Type 0 where
  final :
      {ts : List Tk} {n : ℕ} (inner : List Tk) (c : Tk) (rest : List Tk)
      → Balanced inner
      → turn c ≡ closes own
      → ts ≡ inner ++ c ∷ rest
      → n ≡ length inner
      → Segments own [] ts n
  closing :
      {s : Shape} {h : List Shape} {ts : List Tk} {n : ℕ} (inner : List Tk) (c : Tk)
      (rest : List Tk) (m : ℕ)
      → Balanced inner
      → turn c ≡ closes s
      → Segments own h rest m
      → ts ≡ inner ++ c ∷ rest
      → n ≡ length inner + 1 + m
      → Segments own (s ∷ h) ts n

plus_one : (n : ℕ) → suc n ≡ length {A = ℕ} (0 ∷ []) + n
plus_one n = omega arith

module _ (own : Shape) where
  prepend :
      {h : List Shape} {ts : List Tk} {n : ℕ} (front : List Tk)
      → Balanced front
      → Segments own h ts n
      → Segments own h (front ++ ts) (length front + n)
  prepend front f (final inner c rest b e g k) =
      final (front ++ inner) c rest (append-Balanced f b) e
        (rw g (sym (append_assoc front inner (c ∷ rest))))
        (omega (arith, length-append front inner))
  prepend front f (closing inner c rest m b e more g k) =
      closing (front ++ inner) c rest m (append-Balanced f b) e more
        (rw g (sym (append_assoc front inner (c ∷ rest))))
        (omega (arith, length-append front inner))

  -- An opening token in front: its scope and what follows it are balanced together.
  open_segment :
      {s : Shape} {h : List Shape} {ts : List Tk} {n : ℕ} (o : Tk)
      → turn o ≡ opens s
      → Segments own (s ∷ h) ts n
      → Segments own h (o ∷ ts) (suc n)
  open_segment {s} {h} {ts} {n} o e (closing inner c rest m b f more g k) =
      let size : suc n ≡ length (o ∷ inner ++ c ∷ []) + m =
        omega (arith, length-append inner (c ∷ [])) in
      let split : o ∷ ts ≡ (o ∷ inner ++ c ∷ []) ++ rest =
        ap (◌∷◌ o) (g ∙ sym (append_assoc inner (c ∷ []) rest)) in
      rw (split, size) (prepend (o ∷ inner ++ c ∷ []) (group s o c inner [] e f b empty) more)

  history-push : (s : Shape) (l : Loop) → (push s l).scope_type_history ≡ s ∷ l.scope_type_history
  history-push paren l = refl
  history-push frame l = refl
  history-push list l = refl

  history-pop :
      (s : Shape) (rest : List Shape) (l : Loop) → (pop s rest l).scope_type_history ≡ rest
  history-pop paren rest l = refl
  history-pop frame rest l = refl
  history-pop list rest l = refl

  -- What the loop finds from `last` on, the close token at `p`.
  abbrev Found : List Shape → List Tk → ℕ → ℕ → Type 0
  Found h ts last p = (n : ℕ) × (p ≡ last + 1 + n) × Segments own h ts n

  -- The loop goes on behind the token `t`.
  abbrev after_round : Tk → List Tk → ℕ → Loop → Round → LoopEnd
  after_round t ts last l (goes_on l') = scan own ts (last + 1) l'
  after_round t ts last l breaks = closed_at (last + 1) l
  after_round t ts last l (mismatch s) = mismatched s

  module _ (t : Tk) (ts : List Tk) (last : ℕ) (l : Loop) {p : ℕ} {l' : Loop}
      (again : (l2 : Loop)
        → scan own ts (last + 1) l2 ≡ closed_at p l'
        → Found l2.scope_type_history ts (last + 1) p) where
    close_segment :
        (s : Shape) (h : List Shape)
        → turn t ≡ closes s
        → after_round t ts last l (close_round own s l h) ≡ closed_at p l'
        → Found h (t ∷ ts) last p
    close_segment s [] f e = elim (Bool-cases (same_shape own s)) [
      | inl same ↦
          let at : p ≡ last + 1 = cc (rw same at e) in
          (
            0,
            omega (arith, at),
            final [] t ts empty (f ∙ ap closes (sym (same_shape_sound own s same))) refl refl,
          )
      | inr differs ↦ cc (rw differs at e)
    ]
    close_segment s (top ∷ rest) f e = elim (Bool-cases (same_shape top s)) [
      | inl same ↦
          let (n, q, segments) = again (pop s rest l) (rw same at e) in
          (
            suc n,
            omega (arith, q),
            closing [] t ts n empty (f ∙ ap closes (sym (same_shape_sound top s same)))
                (rw (history-pop s rest l) at segments) refl (omega arith),
          )
      | inr differs ↦ cc (rw differs at e)
    ]

    round_segment :
        (k : Turn)
        → turn t ≡ k
        → after_round t ts last l (round own l k) ≡ closed_at p l'
        → Found l.scope_type_history (t ∷ ts) last p
    unfolding round
    round_segment (opens s) f e =
        let (n, q, segments) = again (push s l) e in
        (suc n, omega (arith, q), open_segment t f (rw (history-push s l) at segments))
    round_segment (closes s) f e = close_segment s l.scope_type_history f e
    round_segment other f e =
        let (n, q, segments) = again l e in
        (suc n, omega (arith, q), rw (plus_one n) (prepend (t ∷ []) (plain f empty) segments))

  -- A loop that finds the close token at `p` has gone over what the stack asks for.
  scan-Segments :
      (ts : List Tk) (last : ℕ) (l : Loop) {p : ℕ} {l' : Loop}
      → scan own ts last l ≡ closed_at p l'
      → Found l.scope_type_history ts last p
  unfolding scan
  scan-Segments [] last l e = cc
  scan-Segments (t ∷ ts) last l e =
      round_segment t ts last l (λ l2 e2. scan-Segments ts (last + 1) l2 e2) (turn t) refl e

is_opening_of-opens : (s : Shape) (k : Turn) → is_opening_of s k ≡ true → k ≡ opens s
is_opening_of-opens s (opens s') h = ap opens (sym (same_shape_sound s s' h))
is_opening_of-opens s (closes s') h = cc
is_opening_of-opens s other h = cc

is_closing_of-closes : (s : Shape) (k : Turn) → is_closing_of s k ≡ true → k ≡ closes s
is_closing_of-closes s (closes s') h = ap closes (sym (same_shape_sound s s' h))
is_closing_of-closes s (opens s') h = cc
is_closing_of-closes s other h = cc

-- The tests behind the loop pass only where the close token was found.
conclude_valid :
    (s : Shape) (ts : List Tk) (p e : ℕ) (l : Loop)
    → (conclude s ts p e l).valid ≡ true
    → (0 < p) × ((conclude s ts p e l).end ≡ p + 1)
unfolding conclude
conclude_valid s ts p e l h = ground arith

Segments-Group :
    (s : Shape) (o : Tk) {ts : List Tk} {n end : ℕ}
    → turn o ≡ opens s
    → Segments s [] ts n
    → end ≡ n + 2
    → Group s (o ∷ ts) end
Segments-Group s o e (final inner c rest b f g k) h = record {
  open_token = o;
  inner = inner;
  close_token = c;
  rest = rest;
  tokens_are = ap (◌∷◌ o) g;
  opens_it = e;
  closes_it = f;
  balanced = b;
  end_is = omega (arith, h, k);
}

loop_sound :
    (s : Shape) (o : Tk) (ts : List Tk) (r : LoopEnd)
    → turn o ≡ opens s
    → scan s ts 0 start ≡ r
    → (after_loop s (o ∷ ts) r).valid ≡ true
    → Group s (o ∷ ts) (after_loop s (o ∷ ts) r).end
unfolding after_loop
loop_sound s o ts (closed_at p l) e f h =
    let (n, q, segments) = scan-Segments s ts 0 start f in
    let (positive, end) = conclude_valid s (o ∷ ts) p (p - 1) l h in
    Segments-Group s o e segments (omega (arith, q, end))
loop_sound s o ts (mismatched s') e f h = cc
loop_sound s o ts (exhausted last l) e f h =
    absurd (omega (arith, (conclude_valid s (o ∷ ts) 0 last l h).0))

-- A valid result is a scope at the start of the range: the token that opens it, balanced tokens,
-- and the token that closes it, which is the last before the end that is returned.
pub find_scope_sound :
    (s : Shape) (ts : List Tk) → (find_scope s ts).valid ≡ true → Group s ts (find_scope s ts).end
unfolding find_scope
find_scope_sound s [] h = cc
find_scope_sound s (t ∷ []) h = elim (Bool-cases (is_opening_of s (turn t))) [
  | inl a ↦ cc
  | inr a ↦ cc
]
find_scope_sound s (t ∷ u ∷ ts) h = elim (Bool-cases (is_opening_of s (turn t))) [
  | inr a ↦ cc
  | inl a ↦
      let opened = is_opening_of-opens s (turn t) a in
      elim (Bool-cases (is_closing_of s (turn u))) [
        | inl b ↦
            rw (a, b)
              (Segments-Group s t opened
                (final [] u ts empty (is_closing_of-closes s (turn u) b) refl refl) (omega arith))
        | inr b ↦
            rw (a, b)
              (loop_sound s t (u ∷ ts) (scan s (u ∷ ts) 0 start) opened refl (rw (a, b) at h))
      ]
]
