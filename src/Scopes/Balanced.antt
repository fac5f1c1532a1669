-- ===== src/Scopes/Balanced.antt =====
-- What a scope is, apart from how the finders look for it: balanced tokens between a token that
-- opens a shape and one that closes it.
use cand_lang_proto.Base.{ℕ, ◌+◌, List, [], ◌∷◌, ◌++◌, ◌≡◌, length, append_assoc}
use cand_lang_proto.Syntax.Token.{Tk}
use cand_lang_proto.Scopes.Find.{Shape, opens, closes, other, turn}

-- Tokens in which each scope that is opened is closed, by its own shape, in the reverse order.
pub data Balanced : List Tk → Type 0 where
  empty : Balanced []
  plain : {t : Tk} {ts : List Tk} → turn t ≡ other → Balanced ts → Balanced (t ∷ ts)
  group :
      (s : Shape) (o c : Tk) (inner rest : List Tk)
      → turn o ≡ opens s
      → turn c ≡ closes s
      → Balanced inner
      → Balanced rest
      → Balanced (o ∷ inner ++ c ∷ rest)

-- `ts` starts with a scope of the shape `s`, which holds `inner` and ends at position `end`.
pub record Group (s : Shape) (ts : List Tk) (end : ℕ) : Type 0 where
  pub open_token : Tk
  pub inner : List Tk
  pub close_token : Tk
  pub rest : List Tk
  pub tokens_are : ts ≡ open_token ∷ inner ++ close_token ∷ rest
  pub opens_it : turn open_token ≡ opens s
  pub closes_it : turn close_token ≡ closes s
  pub balanced : Balanced inner
  pub end_is : end ≡ length inner + 2

pub append-Balanced : {ts us : List Tk} → Balanced ts → Balanced us → Balanced (ts ++ us)
append-Balanced empty h = h
append-Balanced (plain e b) h = plain e (append-Balanced b h)
append-Balanced {us} (group s o c inner rest e f b b') h =
    rw (append_assoc inner (c ∷ rest) us)
      (group s o c inner (rest ++ us) e f b (append-Balanced b' h))
