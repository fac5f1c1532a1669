-- ===== src/Scopes/Iterator.antt =====
-- Candi_Compiler/token_iterator.hpp, `tk_iterator`: a cursor over a range of tokens. A position is
-- its signed distance from `beg_`, so that the tests against `beg_` are there to be made.
use mathlib.Core.Option
use cand_lang_proto.Base.{
  ℕ, zero, suc, ◌+◌, ◌-◌, Bool, List, length, ltb, leb, if◌then◌else◌, Option, none, some,
  get_elem?, ◌&&◌, true, false,
}
use cand_lang_proto.Syntax.TokenKind.{ETk}
use cand_lang_proto.Syntax.Token.{Tk, of_type, type_is, type_and_lit_is}

-- A distance or a position: `pos n` is n, `negsuc n` is -(n + 1).
pub data ℤ : Type 0 where
  pos negsuc : ℕ → ℤ

abbrev pub pos_part : ℤ → ℕ
pos_part (ℤ.pos n) = n
pos_part (ℤ.negsuc n) = 0

abbrev pub neg_part : ℤ → ℕ
neg_part (ℤ.pos n) = 0
neg_part (ℤ.negsuc n) = suc n

abbrev pub leb_ℤ : ℤ → ℤ → Bool
leb_ℤ a b = leb (pos_part a + neg_part b) (pos_part b + neg_part a)

abbrev pub ltb_ℤ : ℤ → ℤ → Bool
ltb_ℤ a b = ltb (pos_part a + neg_part b) (pos_part b + neg_part a)

abbrev pub sub_ℕ : ℕ → ℕ → ℤ
sub_ℕ a b = if leb b a then ℤ.pos (a - b) else ℤ.negsuc (b - a - 1)

infixl 65 ◌+ℤ◌
unfoldable pub ◌+ℤ◌ : ℤ → ℤ → ℤ
a +ℤ b = sub_ℕ (pos_part a + pos_part b) (neg_part a + neg_part b)

pub record TkIterator : Type 0 where
  pub range : List Tk
  pub it : ℤ

abbrev pub sentinel_end_token : Tk
sentinel_end_token = of_type ETk.eof_

abbrev pub beg : ℤ
beg = ℤ.pos 0

-- `end_`.
abbrev pub end : TkIterator → ℤ
end c = ℤ.pos (length c.range)

-- The token that a position is dereferenced to; `none` is a read outside of the range.
abbrev pub token_at : List Tk → ℤ → Option Tk
token_at ts (ℤ.pos n) = get_elem? ts n
token_at ts (ℤ.negsuc n) = none

unfoldable pub get : TkIterator → Option Tk
get c = if leb_ℤ (end c) c.it then some sentinel_end_token else token_at c.range c.it

abbrev pub at_end : TkIterator → Bool
at_end c = leb_ℤ c.it (end c) && leb_ℤ (end c) c.it

abbrev pub is_zero : ℤ → Bool
is_zero (ℤ.pos zero) = true
is_zero _ = false

-- `advance(int)`. The test against `end_` comes first.
unfoldable pub advance : TkIterator → ℤ → TkIterator
unfolding ◌+ℤ◌
advance c n =
    if is_zero n
    then c
    else if leb_ℤ (end c) (c.it +ℤ n)
    then record c { it = end c }
    else if ltb_ℤ (c.it +ℤ n) beg
    then record c { it = beg }
    else record c { it = c.it +ℤ n }

-- `advance(tk_vector_cit)`; `none` is the exception.
unfoldable pub advance_to : TkIterator → ℤ → Option TkIterator
advance_to c new_it =
    if ltb_ℤ new_it beg
    then none
    else if ltb_ℤ (end c) new_it
    then none
    else some (record c { it = new_it })

abbrev pub next : TkIterator → ℤ → TkIterator
next c n = advance c n

-- `next(tk_vector_cit)`, which throws as `advance` does.
abbrev pub next_to : TkIterator → ℤ → Option TkIterator
next_to c new_it = advance_to c new_it

unfoldable pub peek : TkIterator → ℤ → Option Tk
unfolding advance get
peek c n = get (next c n)

-- `type_is(kind, offset)` and `type_and_lit_is(kind, literal, offset)`.
abbrev pub type_is_at : ETk → ℤ → TkIterator → Option Bool
type_is_at k n c = Option.map (type_is k) (peek c n)

abbrev pub type_and_lit_is_at : ETk → List ℕ → ℤ → TkIterator → Option Bool
type_and_lit_is_at k l n c = Option.map (type_and_lit_is k l) (peek c n)
