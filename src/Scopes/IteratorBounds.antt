-- ===== src/Scopes/IteratorBounds.antt =====
-- A cursor never leaves its range, and what it reads ahead or behind agrees with positions in it.
use cand_lang_proto.Base.{
  ℕ, zero, suc, ◌+◌, ◌≤◌, ◌<◌, List, [], ◌∷◌, ◌≡◌, refl, ap, arith, length, get_elem?, get_or, sym,
  ◌∙◌, leb, Bool-cases, inl, inr, subst, true, false, some,
}
use cand_lang_proto.Syntax.Token.{Tk}
use cand_lang_proto.Scopes.Iterator.{
  TkIterator, ℤ, pos_part, neg_part, beg, end, get, advance, peek, ◌+ℤ◌, sentinel_end_token,
  is_zero, leb_ℤ, ltb_ℤ,
}

infix 50 ◌≤ℤ◌ ◌<ℤ◌
abbrev pub ◌≤ℤ◌ : ℤ → ℤ → Type 0
a ≤ℤ b = pos_part a + neg_part b ≤ pos_part b + neg_part a

abbrev pub ◌<ℤ◌ : ℤ → ℤ → Type 0
a <ℤ b = pos_part a + neg_part b < pos_part b + neg_part a

-- The position is neither in front of the begin of the range nor behind its end.
abbrev pub InRange : TkIterator → Type 0
InRange c = (beg ≤ℤ c.it) × (c.it ≤ℤ end c)

-- The position in the range of `c` that is nearest to `p`.
pub data Nearest (c : TkIterator) (p : ℤ) : ℤ → Type 0 where
  before_begin : p <ℤ beg → Nearest c p beg
  inside_range : beg ≤ℤ p → p ≤ℤ end c → Nearest c p p
  behind_end : end c <ℤ p → Nearest c p (end c)

+ℤ-zero : (p n : ℤ) → is_zero n ≡ true → p +ℤ n ≡ p
unfolding ◌+ℤ◌
+ℤ-zero (ℤ.pos m) (ℤ.pos zero) e = ground arith
+ℤ-zero (ℤ.negsuc m) (ℤ.pos zero) e = ground arith
+ℤ-zero p (ℤ.pos (suc n)) e = cc
+ℤ-zero p (ℤ.negsuc n) e = cc

ltb_ℤ-<ℤ : (a b : ℤ) → ltb_ℤ a b ≡ true → a <ℤ b
ltb_ℤ-<ℤ a b e = ground arith

ltb_ℤ-≤ℤ : (a b : ℤ) → ltb_ℤ a b ≡ false → b ≤ℤ a
ltb_ℤ-≤ℤ a b e = ground arith

leb_ℤ-<ℤ : (a b : ℤ) → leb_ℤ a b ≡ false → b <ℤ a
leb_ℤ-<ℤ a b e = ground arith

leb_ℤ-≤ℤ : (a b : ℤ) → leb_ℤ a b ≡ true → a ≤ℤ b
leb_ℤ-≤ℤ a b e = ground arith

-- A position that is not in front of the end has the end as the nearest.
end-Nearest : (c : TkIterator) (p : ℤ) → end c ≤ℤ p → Nearest c p (end c)
end-Nearest c (ℤ.pos n) h = elim (Bool-cases (leb n (length c.range))) [
  | inl e ↦
      let same : n ≡ length c.range = ground arith in
      subst (λ m. Nearest c (ℤ.pos n) (ℤ.pos m)) same (inside_range (omega arith) (ground arith))
  | inr e ↦ behind_end (ground arith)
]
end-Nearest c (ℤ.negsuc n) h = absurd (omega (arith, h))

-- However far a cursor in its range is moved, it stops at the position in the range that is
-- nearest to the one asked for.
advance-Nearest : (c : TkIterator) (n : ℤ) → InRange c → Nearest c (c.it +ℤ n) (advance c n).it
unfolding advance
advance-Nearest c n (low, high) = elim (Bool-cases (is_zero n)) [
  | inl z ↦ rw (z, +ℤ-zero c.it n z) (inside_range low high)
  | inr z ↦ elim (Bool-cases (leb_ℤ (end c) (c.it +ℤ n))) [
    | inl e ↦ rw (z, e) (end-Nearest c (c.it +ℤ n) (leb_ℤ-≤ℤ (end c) (c.it +ℤ n) e))
    | inr e ↦ elim (Bool-cases (ltb_ℤ (c.it +ℤ n) beg)) [
      | inl f ↦ rw (z, e, f) (before_begin (ltb_ℤ-<ℤ (c.it +ℤ n) beg f))
      | inr f ↦
          rw (z, e, f)
            (inside_range (ltb_ℤ-≤ℤ (c.it +ℤ n) beg f)
              (omega (arith, leb_ℤ-<ℤ (end c) (c.it +ℤ n) e)))
    ]
  ]
]

advance-range : (c : TkIterator) (n : ℤ) → (advance c n).range ≡ c.range
unfolding advance
advance-range c n = ground arith

Nearest-InRange : (c : TkIterator) {p q : ℤ} → Nearest c p q → (beg ≤ℤ q) × (q ≤ℤ end c)
Nearest-InRange c (before_begin h) = (omega arith, omega arith)
Nearest-InRange c (inside_range l h) = (l, h)
Nearest-InRange c (behind_end h) = (omega arith, omega arith)

-- However far a cursor in its range is moved, forward or back, it stays in the same range, at the
-- position of it that is nearest to the one asked for: the begin for a position in front of it, the
-- end for one behind it, and any other as it is.
pub advance-InRange :
    (c : TkIterator) (n : ℤ)
    → InRange c
    → (beg ≤ℤ (advance c n).it)
      × ((advance c n).it ≤ℤ end c)
      × Nearest c (c.it +ℤ n) (advance c n).it
      × ((advance c n).range ≡ c.range)
advance-InRange c n h =
    let near = advance-Nearest c n h in
    let (low, high) = Nearest-InRange c near in (low, high, near, advance-range c n)

get_or_lem : (ts : List Tk) (i : ℕ) (d : Tk) → i < length ts → get_elem? ts i ≡ some (get_or ts i d)
get_or_lem [] i d h = absurd (omega (arith, h))
get_or_lem (x ∷ ts) zero d h = refl
get_or_lem (x ∷ ts) (suc i) d h = get_or_lem ts i d (omega (arith, h))

get_or_end : (ts : List Tk) (i : ℕ) (d : Tk) → length ts ≤ i → get_or ts i d ≡ d
get_or_end [] i d h = refl
get_or_end (x ∷ ts) zero d h = absurd (omega (arith, h))
get_or_end (x ∷ ts) (suc i) d h = get_or_end ts i d (omega (arith, h))

get_in_range :
    (c : TkIterator) (p : ℤ)
    → c.it ≡ p
    → beg ≤ℤ p
    → p ≤ℤ end c
    → (q : ℕ) × (p ≡ ℤ.pos q) × (get c ≡ some (get_or c.range q sentinel_end_token))
unfolding get
get_in_range c (ℤ.pos q) e low high = elim (Bool-cases (leb_ℤ (end c) (ℤ.pos q))) [
  | inl f ↦
      (q, refl, rw (e, f) (ap some (sym (get_or_end c.range q sentinel_end_token (ground arith)))))
  | inr f ↦ (q, refl, rw (e, f) (get_or_lem c.range q sentinel_end_token (ground arith)))
]
get_in_range c (ℤ.negsuc n) e low high = absurd (omega (arith, low))

-- However far from a cursor in its range a token is peeked at, no token outside of the range is
-- read: the result is the token at the position in the range that is nearest to the one asked for,
-- and the end token where that is the end.
pub peek-InRange :
    (c : TkIterator) (n : ℤ)
    → InRange c
    → (q : ℕ) × Nearest c (c.it +ℤ n) (ℤ.pos q)
      × (peek c n ≡ some (get_or c.range q sentinel_end_token))
unfolding peek
peek-InRange c n h =
    let (low, high, near, same) = advance-InRange c n h in
    let high' : (advance c n).it ≤ℤ end (advance c n) = rw same high in
    let (q, at, e) = get_in_range (advance c n) (advance c n).it refl low high' in
    (
      q,
      subst (Nearest c (c.it +ℤ n)) at near,
      e ∙ ap (λ ts. some (get_or ts q sentinel_end_token)) same,
    )
