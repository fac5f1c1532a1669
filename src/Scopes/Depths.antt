-- ===== src/Scopes/Depths.antt =====
-- The depth counters of the searches in Candi_Compiler/token_iterator.hpp beside their stack.
use cand_lang_proto.Base.{
  ℕ, ◌+◌, List, [], ◌∷◌, ◌≡◌, refl, subst, ap, ◌∙◌, arith, if◌then◌else◌, Bool-cases, inl, inr,
}
use cand_lang_proto.Scopes.Find.{
  Shape, paren, list, frame, same_shape, Turn, opens, closes, other, Loop, start, push, pop,
  goes_on, round, close_round,
}
use cand_lang_proto.Scopes.FindSound.{same_shape_sound}

-- How often a shape is on the stack.
abbrev pub count : Shape → List Shape → ℕ
count s [] = 0
count s (x ∷ h) = (if same_shape s x then 1 else 0) + count s h

-- Each depth is the number of entries of its shape.
pub record Counted (l : Loop) : Type 0 where
  pub parens : l.paren_scope_depth ≡ count paren l.scope_type_history
  pub frames : l.frame_scope_depth ≡ count frame l.scope_type_history
  pub lists : l.list_scope_depth ≡ count list l.scope_type_history

pub start-Counted : Counted start
start-Counted = record { parens = refl; frames = refl; lists = refl }

push-Counted : (s : Shape) (l : Loop) → Counted l → Counted (push s l)
push-Counted paren l c = record {
  parens = omega (arith, c.parens);
  frames = omega (arith, c.frames);
  lists = omega (arith, c.lists);
}
push-Counted frame l c = record {
  parens = omega (arith, c.parens);
  frames = omega (arith, c.frames);
  lists = omega (arith, c.lists);
}
push-Counted list l c = record {
  parens = omega (arith, c.parens);
  frames = omega (arith, c.frames);
  lists = omega (arith, c.lists);
}

pop-Counted :
    (s : Shape) (rest : List Shape) (l : Loop)
    → l.scope_type_history ≡ s ∷ rest
    → Counted l
    → Counted (pop s rest l)
pop-Counted paren rest l e c = record {
  parens = omega (arith, c.parens, ap (count paren) e);
  frames = omega (arith, c.frames, ap (count frame) e);
  lists = omega (arith, c.lists, ap (count list) e);
}
pop-Counted frame rest l e c = record {
  parens = omega (arith, c.parens, ap (count paren) e);
  frames = omega (arith, c.frames, ap (count frame) e);
  lists = omega (arith, c.lists, ap (count list) e);
}
pop-Counted list rest l e c = record {
  parens = omega (arith, c.parens, ap (count paren) e);
  frames = omega (arith, c.frames, ap (count frame) e);
  lists = omega (arith, c.lists, ap (count list) e);
}

close_round-Counted :
    (own s : Shape) (l : Loop) (h : List Shape) {l' : Loop}
    → l.scope_type_history ≡ h
    → Counted l
    → close_round own s l h ≡ goes_on l'
    → Counted l'
close_round-Counted own s l [] {l'} g c e = elim (Bool-cases (same_shape own s)) [
  | inl same ↦ cc (rw same at e)
  | inr differs ↦ cc (rw differs at e)
]
close_round-Counted own s l (top ∷ rest) {l'} g c e = elim (Bool-cases (same_shape top s)) [
  | inl same ↦
      let next : pop s rest l ≡ l' = cc (rw same at e) in
      let on_top : l.scope_type_history ≡ s ∷ rest =
        g ∙ ap (λ x. x ∷ rest) (same_shape_sound top s same) in
      subst Counted next (pop-Counted s rest l on_top c)
  | inr differs ↦ cc (rw differs at e)
]

-- A round of a search for a scope that goes on keeps each depth equal to the number of entries of
-- its shape on the stack.
pub round-Counted :
    (own : Shape) (l l' : Loop) (k : Turn) → Counted l → round own l k ≡ goes_on l' → Counted l'
unfolding round
round-Counted own l l' (opens s) c e =
    let next : push s l ≡ l' = cc in subst Counted next (push-Counted s l c)
round-Counted own l l' (closes s) c e = close_round-Counted own s l l.scope_type_history refl c e
round-Counted own l l' other c e = let next : l ≡ l' = cc in subst Counted next c
