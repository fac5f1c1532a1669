-- ===== src/Expression/ResolveLoops.antt =====
-- The loops of `action_check` end, with the closures of lower priority or the sentinel alone.
use cand_lang_proto.Base.{
  ℕ, zero, suc, ◌-◌, ◌<◌, ◌≤◌, true, false, ltb, ltb→lt, List, ◌∷◌, length, ◌≡◌, refl, Bool-cases,
  inl, inr, arith,
}
use cand_lang_proto.Syntax.Token.{Tk}
use cand_lang_proto.Expression.Outcome.{◌>>=◌, Ensures, bind-Ensures}
use cand_lang_proto.Expression.Closure.{Closure, level}
use cand_lang_proto.Expression.ClosureList.{ClosureList, resolve_next}
use cand_lang_proto.Expression.Parenthesizer.{resolve_all, resolve_higher}
use cand_lang_proto.Expression.OperatorLevels.{none_level}
use cand_lang_proto.Expression.Strip.{Writes}
use cand_lang_proto.Expression.Stack.{Stacked, base, above}
use cand_lang_proto.Expression.Resolve.{Resolved, resolve_next-Resolved}

pub resolve_all-Writes :
    (fuel : ℕ) (l : ClosureList) (ts : List Tk)
    → length l.closures < fuel
    → Stacked l.closures
    → Writes l ts
    → Ensures (Resolved 1 ts) (resolve_all fuel l)
unfolding resolve_all
resolve_all-Writes zero l ts h s w = absurd (omega arith)
resolve_all-Writes (suc fuel) l ts h s w = elim (Bool-cases (ltb 1 (length l.closures))) [
  | inl more ↦
      rw (more, resolve_all)
        (bind-Ensures (Resolved (length l.closures - 1) ts) (Resolved 1 ts) (resolve_next l)
          (resolve_all fuel) (resolve_next-Resolved l ts s more w)
          (λ l' r.
            resolve_all-Writes fuel l' ts
              (let few = r.shorter in let many = ltb→lt 1 (length l.closures) more in omega arith)
              r.stacked r.writes))
  | inr one ↦ rw (one, resolve_all) (record { stacked = s; shorter = ground arith; writes = w })
]

two_closures :
    (l : ClosureList) (c : Closure) (ds : List Closure)
    → l.closures ≡ c ∷ ds
    → Stacked ds
    → ltb 1 (length l.closures) ≡ true
two_closures l c _ e (base b k) = rw e (ground arith)
two_closures l c _ e (above d ds o t) = rw e (ground arith)

pub resolve_higher-Writes :
    (fuel p : ℕ) (l : ClosureList) (ts : List Tk) (n : ℕ)
    → length l.closures < fuel
    → length l.closures ≤ n
    → Stacked l.closures
    → Writes l ts
    → Ensures (Resolved n ts) (resolve_higher fuel p l)
unfolding resolve_higher
resolve_higher-Writes zero p l ts n h k s w = absurd (omega arith)
resolve_higher-Writes (suc fuel) p l ts n h k s w =
    higher
      (λ more.
        bind-Ensures (Resolved (length l.closures - 1) ts) (Resolved n ts) (resolve_next l)
          (resolve_higher fuel p) (resolve_next-Resolved l ts s more w)
          (λ l' r.
            let few = r.shorter in
            let many = ltb→lt 1 (length l.closures) more in
            resolve_higher-Writes fuel p l' ts n (omega arith) (omega arith) r.stacked r.writes))
      l.closures refl s
  where
    done : Resolved n ts l
    done = record { stacked = s; shorter = k; writes = w }

    higher :
        (ltb 1 (length l.closures) ≡ true
          → Ensures (Resolved n ts) (resolve_next l >>= resolve_higher fuel p))
        → (cs : List Closure) → l.closures ≡ cs
        → Stacked cs
        → Ensures (Resolved n ts) (resolve_higher (suc fuel) p l)
    higher resolved _ e (base b k') =
        let test : ltb p (level b) ≡ false = ground (arith, none_level b k') in
        rw (e, resolve_higher) (rw test done)
    higher resolved _ e (above c ds o t) = elim (Bool-cases (ltb p (level c))) [
      | inl more ↦ rw (e, resolve_higher) (rw more (resolved (two_closures l c ds e t)))
      | inr less ↦ rw (e, resolve_higher) (rw less done)
    ]
