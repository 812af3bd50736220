-- ===== src/Base/Int/Wrap.antt =====
-- int64 arithmetic wraps around once, whatever wrapped around before.
use procstats.Base.{ℕ, ◌+◌, ◌-◌, ◌%◌, ◌^◌, ◌<◌, ◌≡◌, refl, sym, ap, ◌∙◌, arith}
use procstats.Base.Int.{
  ℤ, pos, wrap64-eq_of_IsInt64, ◌+ℤ◌, ◌-ℤ◌, to_uint64, to_int64, wrap64, +ℤ_parts, -ℤ_parts,
}

to_uint64-to_int64 : (w : ℕ) → w < 2 ^ 64 → to_uint64 (to_int64 w) ≡ w
to_uint64-to_int64 w h = ground arith

to_uint64-wrap64 : (a : ℤ) → to_uint64 (wrap64 a) ≡ to_uint64 a
unfolding wrap64
to_uint64-wrap64 a = to_uint64-to_int64 (to_uint64 a) (omega arith)

to_uint64-+ℤ : (a b : ℤ) → to_uint64 (a +ℤ b) ≡ (to_uint64 a + to_uint64 b) % 2 ^ 64
to_uint64-+ℤ a b = omega (arith, +ℤ_parts a b)

to_uint64--ℤ : (a b : ℤ) → to_uint64 (a -ℤ b) ≡ (to_uint64 a + 2 ^ 64 - to_uint64 b) % 2 ^ 64
to_uint64--ℤ a b = omega (arith, -ℤ_parts a b)

wrap64-of : (a b : ℤ) → to_uint64 a ≡ to_uint64 b → wrap64 a ≡ wrap64 b
unfolding wrap64
wrap64-of a b h = ap to_int64 h

pub wrap64-+ℤ : (a b : ℤ) → wrap64 (wrap64 a +ℤ wrap64 b) ≡ wrap64 (a +ℤ b)
wrap64-+ℤ a b = wrap64-of (wrap64 a +ℤ wrap64 b) (a +ℤ b) (
    rw
      (to_uint64-+ℤ (wrap64 a) (wrap64 b), to_uint64-+ℤ a b, to_uint64-wrap64 a, to_uint64-wrap64 b)
      refl)

pub wrap64-+ℤ_left : (a b : ℤ) → wrap64 (wrap64 a +ℤ b) ≡ wrap64 (a +ℤ b)
wrap64-+ℤ_left a b = wrap64-of (wrap64 a +ℤ b) (a +ℤ b) (
    to_uint64-+ℤ (wrap64 a) b
    ∙ ap (λ u. (u + to_uint64 b) % 2 ^ 64) (to_uint64-wrap64 a)
    ∙ sym (to_uint64-+ℤ a b))

pub wrap64--ℤ_left : (a b : ℤ) → wrap64 (wrap64 a -ℤ b) ≡ wrap64 (a -ℤ b)
wrap64--ℤ_left a b = wrap64-of (wrap64 a -ℤ b) (a -ℤ b) (
    to_uint64--ℤ (wrap64 a) b
    ∙ ap (λ u. (u + 2 ^ 64 - to_uint64 b) % 2 ^ 64) (to_uint64-wrap64 a)
    ∙ sym (to_uint64--ℤ a b))

pub wrap64_pos : (a : ℕ) → a < 2 ^ 63 → wrap64 (pos a) ≡ pos a
wrap64_pos a h = wrap64-eq_of_IsInt64 (pos a) (omega arith)
