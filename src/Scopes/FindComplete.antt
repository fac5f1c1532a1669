-- ===== src/Scopes/FindComplete.antt =====
-- A balanced scope is found: the finders of Candi_Compiler/token_iterator.hpp are complete.
use cand_lang_proto.Base.{
  ℕ, ◌+◌, ◌-◌, true, false, List, [], ◌∷◌, ◌++◌, ◌≡◌, refl, ap, ◌∙◌, arith, ◌==◌, length,
  length-append, append_assoc,
}
use cand_lang_proto.Syntax.Token.{Tk}
use cand_lang_proto.Scopes.Scope.{scope_valid}
use cand_lang_proto.Scopes.Find.{
  Shape, paren, list, frame, Turn, opens, closes, other, turn, is_opening_of, is_closing_of, Loop,
  start, push, pop, round, scan, closed_at, goes_on, conclude, after_loop, find_scope,
}
use cand_lang_proto.Scopes.Balanced.{Balanced, empty, plain, group, Group}

-- The decrement undoes the increment.
pub pop-push : (s : Shape) (l : Loop) → pop s l.scope_type_history (push s l) ≡ l
pop-push paren l =
    let e : l.paren_scope_depth + 1 - 1 ≡ l.paren_scope_depth = omega arith in rw e refl
pop-push frame l =
    let e : l.frame_scope_depth + 1 - 1 ≡ l.frame_scope_depth = omega arith in rw e refl
pop-push list l = let e : l.list_scope_depth + 1 - 1 ≡ l.list_scope_depth = omega arith in rw e refl

module _ (own : Shape) where
  scan_plain :
      (t : Tk) (ts : List Tk) (last : ℕ) (l : Loop)
      → turn t ≡ other
      → scan own (t ∷ ts) last l ≡ scan own ts (last + 1) l
  unfolding scan round
  scan_plain t ts last l e = rw (e, scan) refl

  scan_open :
      (t : Tk) (ts : List Tk) (last : ℕ) (l : Loop) (s : Shape)
      → turn t ≡ opens s
      → scan own (t ∷ ts) last l ≡ scan own ts (last + 1) (push s l)
  unfolding scan round
  scan_open t ts last l s e = rw (e, scan) refl

  round_close : (l : Loop) (s : Shape) → round own (push s l) (closes s) ≡ goes_on l
  unfolding round
  round_close l paren = ap goes_on (pop-push paren l)
  round_close l frame = ap goes_on (pop-push frame l)
  round_close l list = ap goes_on (pop-push list l)

  -- A close of the scope that was opened last.
  scan_close :
      (t : Tk) (ts : List Tk) (last : ℕ) (l : Loop) (s : Shape)
      → turn t ≡ closes s
      → scan own (t ∷ ts) last (push s l) ≡ scan own ts (last + 1) l
  unfolding scan round
  scan_close t ts last l s e = rw (e, scan) (rw (round_close l s) refl)

  -- The loop goes over balanced tokens and is as before behind them.
  scan-Balanced :
      {inner : List Tk}
      → Balanced inner
      → (rest : List Tk) (last : ℕ) (l : Loop)
      → scan own (inner ++ rest) last l ≡ scan own rest (last + length inner) l
  scan-Balanced empty rest last l = ap (λ n. scan own rest n l) (omega arith)
  scan-Balanced (plain {t} {ts} e b) rest last l =
      scan_plain t (ts ++ rest) last l e
      ∙ scan-Balanced b rest (last + 1) l
      ∙ ap (λ n. scan own rest n l) (omega arith)
  scan-Balanced (group s o c inner more e f b b') rest last l =
      ap (λ ts. scan own (o ∷ ts) last l) (append_assoc inner (c ∷ more) rest)
      ∙ scan_open o (inner ++ (c ∷ (more ++ rest))) last l s e
      ∙ scan-Balanced b (c ∷ (more ++ rest)) (last + 1) (push s l)
      ∙ scan_close c (more ++ rest) (last + 1 + length inner) l s f
      ∙ scan-Balanced b' rest (last + 1 + length inner + 1) l
      ∙ ap (λ n. scan own rest n l) (omega (arith, length-append inner (c ∷ more)))

scan_found :
    (s : Shape) (c : Tk) (rest : List Tk) (last : ℕ)
    → turn c ≡ closes s
    → scan s (c ∷ rest) last start ≡ closed_at (last + 1) start
unfolding scan round
scan_found paren c rest last e = rw (e, scan) refl
scan_found list c rest last e = rw (e, scan) refl
scan_found frame c rest last e = rw (e, scan) refl

opens-is_opening_of : (s : Shape) (t : Turn) → t ≡ opens s → is_opening_of s t ≡ true
opens-is_opening_of paren t e = rw e refl
opens-is_opening_of list t e = rw e refl
opens-is_opening_of frame t e = rw e refl

closes-is_closing_of : (s : Shape) (t : Turn) → t ≡ closes s → is_closing_of s t ≡ true
closes-is_closing_of paren t e = rw e refl
closes-is_closing_of list t e = rw e refl
closes-is_closing_of frame t e = rw e refl

not_closing :
    {t : Tk} {ts : List Tk} (s : Shape) → Balanced (t ∷ ts) → is_closing_of s (turn t) ≡ false
not_closing s (plain e b) = rw e refl
not_closing s (group s' o c inner rest e f b b') = rw e refl

find_scope_loop :
    (s : Shape) (t u : Tk) (ts : List Tk)
    → is_opening_of s (turn t) ≡ true
    → is_closing_of s (turn u) ≡ false
    → find_scope s (t ∷ u ∷ ts) ≡ after_loop s (t ∷ u ∷ ts) (scan s (u ∷ ts) 0 start)
unfolding find_scope
find_scope_loop s t u ts e f = rw (e, f, find_scope) refl

find_scope_empty :
    (s : Shape) (t u : Tk) (ts : List Tk)
    → is_opening_of s (turn t) ≡ true
    → is_closing_of s (turn u) ≡ true
    → find_scope s (t ∷ u ∷ ts) ≡ scope_valid 0 2
unfolding find_scope
find_scope_empty s t u ts e f = rw (e, f, find_scope) refl

conclude_found :
    (s : Shape) (ts : List Tk) (p e : ℕ) → conclude s ts (p + 1) e start ≡ scope_valid 0 (p + 2)
unfolding conclude
conclude_found s ts p e =
    let a : (p + 1 == 0) ≡ false = ground arith in
    let b : p + 1 + 1 ≡ p + 2 = omega arith in rw (a, b) refl

-- A scope of balanced tokens at the start of a range is found, with its last token as the end.
pub find_scope_complete :
    (s : Shape) (ts : List Tk) (end : ℕ) → Group s ts end → find_scope s ts ≡ scope_valid 0 end
unfolding after_loop
find_scope_complete s ts end g = go g.inner g.balanced g.tokens_are g.end_is
  where
    go :
        (inner : List Tk)
        → Balanced inner
        → ts ≡ g.open_token ∷ inner ++ g.close_token ∷ g.rest
        → end ≡ length inner + 2
        → find_scope s ts ≡ scope_valid 0 end
    go [] b e f =
        rw (e, f)
          (find_scope_empty s g.open_token g.close_token g.rest (opens-is_opening_of s _ g.opens_it)
            (closes-is_closing_of s _ g.closes_it))
    go (t ∷ inner) b e f =
        rw (e, f)
          (find_scope_loop s g.open_token t (inner ++ g.close_token ∷ g.rest)
              (opens-is_opening_of s _ g.opens_it) (not_closing s b)
            ∙ ap (after_loop s (g.open_token ∷ t ∷ inner ++ g.close_token ∷ g.rest)) (
                scan-Balanced s b (g.close_token ∷ g.rest) 0 start
                ∙ scan_found s g.close_token g.rest (0 + length (t ∷ inner)) g.closes_it)
            ∙ conclude_found s _ (0 + length (t ∷ inner)) _
            ∙ ap (scope_valid 0) (omega arith))
