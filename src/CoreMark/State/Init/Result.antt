-- ===== src/CoreMark/State/Init/Result.antt =====
-- The block that `core_init_state` returns.
use rsicv_uvm_test.Base.{
  ℕ, suc, ◌+◌, ◌-◌, ◌^◌, ◌≤◌, ◌<◌, ◌≡◌, refl, ap, arith, true, inl, inr, ltb, Bool-cases, Option,
  some, List, [], ◌++◌, length, drop, drop-drop, length-drop, replicate, u16, u32,
}
use rsicv_uvm_test.CoreMark.State.Init.{choose, Filling, emit, fill, core_init_state}
use rsicv_uvm_test.CoreMark.State.Init.Writes.{clear_next}
use rsicv_uvm_test.CoreMark.State.Init.Layout.{
  patterns, pending, IsFilled, fill-IsFilled, advance_next,
}

-- The block holds patterns, then zeros up to `size`, and then what stood behind it.
pub record IsLaidOut (size seed : ℕ) (p : List ℕ) (o : Option (List ℕ)) : Type 0 where
  pub n : ℕ
  pub zeros : ℕ
  pub returned : o ≡ some (patterns n (u16 (seed + 1)) ++ (replicate zeros 0 ++ drop size p))
  pub exact : length (patterns n (u16 (seed + 1))) + zeros ≡ size
  pub terminated : 2 ≤ zeros
  pub full : zeros ≤ 10

abbrev start : (seed : ℕ) → List ℕ → Filling
start seed p = record { total = 0; next = 0; buf = []; seed = seed; mem = p }

emit-start : (seed : ℕ) (p : List ℕ) → emit (start seed p) ≡ some (start seed p)
unfolding emit
emit-start seed p = refl

-- The first round of the loop copies nothing, and only chooses a pattern.
fill-start :
    (fuel size seed : ℕ) (p : List ℕ)
    → ltb (u32 (0 + 0 + 1)) size ≡ true
    → fill (suc fuel) size (start seed p)
      ≡ fill fuel size (pending (choose (u16 (seed + 1))).buf (u16 (seed + 1)) [] p)
unfolding fill
fill-start fuel size seed p more =
    rw (fill, more) (rw (emit-start seed p) (ap (fill fuel size) (advance_next [] 0 seed [] p)))

start-IsFilled :
    (size seed : ℕ) (p : List ℕ)
    → 2 ≤ size
    → size ≤ length p
    → length p < 2 ^ 31
    → IsFilled (size - 1) (u16 (seed + 1)) [] p (fill (suc (suc size)) (size - 1) (start seed p))
start-IsFilled size seed p two fits small = elim (Bool-cases (ltb (u32 (0 + 0 + 1)) (size - 1))) [
  | inr stop ↦
      unfold fill in
      rw (fill, stop)
        (record {
          filled = start seed p;
          returned = refl;
          n = 0;
          total = refl;
          mem = refl;
          inside = omega arith;
          close = ground arith;
        })
  | inl more ↦ rw (fill-start (suc size) (size - 1) seed p more) (
      fill-IsFilled (suc size) (size - 1) (u16 (seed + 1)) [] p (omega arith) (omega arith)
        (omega arith) (omega arith))
]

-- On a block of `size` bytes, at least two, `core_init_state` writes nothing outside the first
-- `size` bytes, and returns. It leaves there whole patterns, chosen by the seeds after the one
-- given and each followed by a comma, and then at least two zeros and at most ten.
pub core_init_state-IsLaidOut :
    (size seed : ℕ) (p : List ℕ)
    → 2 ≤ size
    → size ≤ length p
    → length p < 2 ^ 31
    → IsLaidOut size seed p (core_init_state size seed p)
unfolding core_init_state
core_init_state-IsLaidOut size seed p two fits small =
    let f = start-IsFilled size seed p two fits small in
    let shorter : u32 (size + (2 ^ 32 - 1)) ≡ size - 1 = omega arith in
    let text = patterns f.n (u16 (seed + 1)) in
    let zeros : ℕ = size - length text in
    let joined : length text + zeros ≡ size = omega (arith, f.total, f.inside) in
    record {
      n = f.n;
      zeros = zeros;
      returned =
          rw
            (
              shorter,
              f.returned,
              f.total,
              f.mem,
              clear_next zeros (suc size) size (length text) text (drop (length text) p) refl joined
                  (omega (arith, length-drop (length text) p)) (omega arith),
              drop-drop (length text) zeros p,
              joined,
            )
            refl;
      exact = joined;
      terminated = omega (arith, f.total, f.inside);
      full = omega (arith, f.total, f.close);
    }
