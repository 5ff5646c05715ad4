-- ===== src/Common/Loop.antt =====
-- A `while` loop on fuel, and what it takes to end it.
use Prim.Native.Nat.{ℕ, zero, suc, ◌<◌}
use mathlib.Core.Path.{subst, ◌≡◌, refl}
use mathlib.Core.Logic.{inl, inr}
use mathlib.Core.Bool.{Bool, true, false}
use mathlib.Core.Option.{Option, none, some}
use native.Mathlib.Omega.{arith}
use mini_ran.Common.Tests.{if◌then◌else◌, Bool-cases}

module _ {ℓ} {S : Type ℓ} where
  -- `none` when the fuel is used up before the test fails.
  unfoldable pub while : ℕ → (S → Bool) → (S → S) → S → Option S
  while zero test body s = none
  while (suc fuel) test body s =
      let later = while fuel test body (body s) in if test s then later else some s

  -- A measure that each round lowers ends the loop, and what each round keeps holds at its end.
  pub while_returns {κ} :
      (test : S → Bool) (body : S → S) (Inv : S → Type κ) (measure : S → ℕ)
      → ((s : S) → Inv s → test s ≡ true → Inv (body s) × (measure (body s) < measure s))
      → (fuel : ℕ) (s : S) → Inv s
      → measure s < fuel
      → (end : S) × (while fuel test body s ≡ some end) × (test end ≡ false) × Inv end
  unfolding while
  while_returns test body Inv measure round zero s i f = absurd (omega arith)
  while_returns test body Inv measure round (suc fuel) s i f = elim (Bool-cases (test s)) [
    | inr stops ↦ (s, rw stops refl, stops, i)
    | inl goes ↦
        let (kept, lower) = round s i goes in
        let (end, done, stopped, last) =
          while_returns test body Inv measure round fuel (body s) kept (omega arith) in
        (end, rw goes done, stopped, last)
  ]

  -- What each round keeps holds when the loop ends, if it does.
  pub while_keeps {κ} :
      (test : S → Bool) (body : S → S) (Inv : S → Type κ)
      → ((s : S) → Inv s → Inv (body s))
      → (fuel : ℕ) (s end : S) → Inv s
      → while fuel test body s ≡ some end
      → Inv end
  unfolding while
  while_keeps test body Inv round zero s end i e = cc
  while_keeps test body Inv round (suc fuel) s end i e = elim (Bool-cases (test s)) [
    | inl goes ↦ while_keeps test body Inv round fuel (body s) end (round s i) (rw goes at e)
    | inr stops ↦
        let left : some s ≡ some end = rw stops at e in let same : s ≡ end = cc in subst Inv same i
  ]
