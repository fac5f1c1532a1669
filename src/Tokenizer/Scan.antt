-- ===== src/Tokenizer/Scan.antt =====
-- The cursor of the tokenizer: reads stay in the text, and its loops end where they should.
use cand_lang_proto.Base.{
  ℕ, zero, suc, ◌+◌, ◌≤◌, ◌<◌, Bool, true, false, List, [], ◌∷◌, ◌≡◌, ◌≢◌, refl, ap, arith, length,
  slice, Bool-cases, none, some, inl, inr,
}
use cand_lang_proto.Syntax.Equality.{literal_eq_iff}
use cand_lang_proto.Tokenizer.Cursor.{
  Text, get, peek, peek_prev, find_forward, advance_while, search_forward,
}

-- A byte other than EOF_CHAR is read inside the text only.
pub get-lt : (src : Text) (it : ℕ) → get src it ≢ 0 → it < length src
unfolding get
get-lt [] it h = absurd (h refl)
get-lt (c ∷ cs) zero h = omega arith
get-lt (c ∷ cs) (suc it) h = omega (arith, get-lt cs it h)

pub get_out : (src : Text) (it : ℕ) → length src ≤ it → get src it ≡ 0
unfolding get
get_out [] it h = refl
get_out (c ∷ cs) zero h = absurd (omega arith)
get_out (c ∷ cs) (suc it) h = get_out cs it (omega arith)

pub peek_lem : (src : Text) (it n : ℕ) → peek src it n ≡ get src (it + n)
unfolding peek
peek_lem src it n = ground (arith, get_out src (it + n))

pub peek_prev_lem : (src : Text) (it : ℕ) → peek_prev src (suc it) ≡ get src it
unfolding peek_prev
peek_prev_lem src it = ground (arith, get_out src it)

-- `find_forward` finds the characters wholly inside the text.
pub find_forward-slice :
    (src : Text) (it : ℕ) (characters : List ℕ)
    → find_forward src it characters ≡ true
    → (it + length characters ≤ length src) × (slice src it (it + length characters) ≡ characters)
unfolding find_forward
find_forward-slice src it characters h =
    ground (arith, literal_eq_iff (slice src it (it + length characters)) characters)

module _ (p : ℕ → Bool) (p_eof : p 0 ≡ false) (src : Text) where
  -- The loop reaches a byte that fails the test when the fuel covers the rest of the text.
  pub advance_while_stops :
      (fuel it : ℕ) → length src ≤ it + fuel → p (get src (advance_while p fuel src it)) ≡ false
  unfolding advance_while
  advance_while_stops zero it h = rw (get_out src it (omega arith)) p_eof
  advance_while_stops (suc fuel) it h = elim (Bool-cases (p (get src it))) [
    | inl go ↦ rw go (advance_while_stops fuel (it + 1) (omega arith))
    | inr stop ↦ rw stop stop
  ]

  pub advance_while-le-length :
      (fuel it : ℕ) → it ≤ length src → advance_while p fuel src it ≤ length src
  unfolding advance_while
  advance_while-le-length zero it h = h
  advance_while-le-length (suc fuel) it h = elim (Bool-cases (p (get src it))) [
    | inl go ↦ rw go (
        advance_while-le-length fuel (it + 1)
          (omega (arith, get-lt src it (λ e. cc (ap p e, p_eof, go)))))
    | inr stop ↦ rw stop h
  ]

module _ (p : ℕ → Bool) (src : Text) where
  pub le-advance_while : (fuel it : ℕ) → it ≤ advance_while p fuel src it
  unfolding advance_while
  le-advance_while zero it = omega arith
  le-advance_while (suc fuel) it = ground (arith, le-advance_while fuel (it + 1))

  -- A loop whose first test passes makes a step.
  pub lt-advance_while :
      (fuel it : ℕ) → p (get src it) ≡ true → 0 < fuel → it < advance_while p fuel src it
  unfolding advance_while
  lt-advance_while zero it go h = absurd (omega arith)
  lt-advance_while (suc fuel) it go h = ground (arith, le-advance_while (fuel) (it + 1))

  -- Every byte that the loop passes meets the test.
  pub advance_while_passes :
      (fuel it j : ℕ) → it ≤ j → j < advance_while p fuel src it → p (get src j) ≡ true
  unfolding advance_while
  advance_while_passes zero it j h k = absurd (omega arith)
  advance_while_passes (suc fuel) it j h k = elim (Bool-cases (p (get src it))) [
    | inl go ↦
        ground (
          arith,
          go,
          ap (λ n. p (get src n)) {x = it} {y = j},
          advance_while_passes fuel (it + 1) j,
        )
    | inr stop ↦ absurd (ground arith)
  ]

module _ (p : Text → ℕ → Bool) (src : Text) where
  -- A place that the search gives meets the test, and none before it does.
  pub search_forward_sound :
      (fuel it : ℕ) {q : ℕ} → search_forward p fuel src it ≡ some q → (it ≤ q) × (p src q ≡ true)
  unfolding search_forward
  search_forward_sound zero it h = cc
  search_forward_sound (suc fuel) it h = elim (Bool-cases (p src it)) [
    | inl found ↦ ground arith
    | inr not_here ↦ ground (arith, search_forward_sound fuel (it + 1) (rw not_here at h))
  ]

  -- The search fails only where no place within its fuel meets the test.
  pub search_forward_complete :
      (fuel it j : ℕ)
      → search_forward p fuel src it ≡ none
      → it ≤ j
      → j < it + fuel
      → p src j ≡ false
  unfolding search_forward
  search_forward_complete zero it j h k l = absurd (omega arith)
  search_forward_complete (suc fuel) it j h k l = elim (Bool-cases (p src it)) [
    | inl found ↦ absurd (ground arith)
    | inr not_here ↦ ground (
      arith,
      not_here,
      ap (p src) {x = it} {y = j},
      search_forward_complete fuel (it + 1) j (rw not_here at h),
    )
  ]

  -- Where no place ever meets the test, no fuel is enough.
  pub search_forward-none :
      (fuel it : ℕ) → ((j : ℕ) → it ≤ j → p src j ≡ false) → search_forward p fuel src it ≡ none
  unfolding search_forward
  search_forward-none zero it h = refl
  search_forward-none (suc fuel) it h =
      rw (h it (omega arith)) (search_forward-none fuel (it + 1) (λ j k. h j (omega arith)))
