-- ===== src/LineBuffer/Units.antt =====
-- The buffer fed one unit at a time: a chunk does what its units do in turn.
use ppq_enclave_proxy.Prelude.{
  ℕ, ◌≡◌, sym, ap, ◌∙◌, Text, [], ◌∷◌, ◌++◌, Bool, true, false, ◌||◌, length, ltb, ◌==◌,
  if◌then◌else◌, inl, inr, Bool-cases, arith, refl, length-append,
}
use mathlib.Core.List.{append_assoc, append-nil}
use ppq_enclave_proxy.LineBuffer.{
  Consumer, Buffer, IsUniform, split_lines, consume_lines, settle, fresh, waiting, skipping_from,
  feed_lines,
}

abbrev pub has_newline : Text → Bool
has_newline [] = false
has_newline (c ∷ s) = c == 10 || has_newline s

has_newline-append : (s t : Text) → has_newline (s ++ t) ≡ (has_newline s || has_newline t)
has_newline-append [] t = refl
has_newline-append (c ∷ s) t = ground (arith, has_newline-append s t)

pub split_lines_last : (b : Text) → has_newline b ≡ false → split_lines b ≡ ([], b)
split_lines_last [] h = refl
split_lines_last (c ∷ b) h =
    let rest : has_newline b ≡ false = ground arith in
    rw (split_lines_last b rest)
      (elim (Bool-cases (c == 10)) [ inl same ↦ ground arith | inr other ↦ rw other refl ])

split_lines_line :
    (b t : Text)
    → has_newline b ≡ false
    → split_lines (b ++ 10 ∷ t) ≡ (b ∷ (split_lines t).0, (split_lines t).1)
split_lines_line [] t h = refl
split_lines_line (c ∷ b) t h =
    let rest : has_newline b ≡ false = ground arith in
    rw (split_lines_line b t rest)
      (elim (Bool-cases (c == 10)) [ inl same ↦ ground arith | inr other ↦ rw other refl ])

longer :
    (limit : ℕ)
    → (b : Text) (c : ℕ) → ltb limit (length b) ≡ true
    → ltb limit (length (b ++ c ∷ [])) ≡ true
longer limit b c h = ground (arith, length-append b (c ∷ []))

pub open_longer :
    (b : Text) (c : ℕ)
    → has_newline b ≡ false
    → (c == 10) ≡ false
    → has_newline (b ++ c ∷ []) ≡ false
open_longer b c h other = rw (has_newline-append b (c ∷ []), h, other) refl

module _ {A : Type 0} (k : Consumer A) (limit : ℕ) where
  -- One unit.
  unfoldable pub step : Buffer A → ℕ → Buffer A
  unfolding settle
  step b c =
      if b.skipping
      then (if c == 10
          then fresh (k.resume b.consumed)
          else skipping_from (k.skip b.consumed (c ∷ [])))
      else (if c == 10
          then fresh (k.line b.consumed b.buffer)
          else settle k limit b.consumed (b.buffer ++ c ∷ []))

  abbrev pub run : Buffer A → Text → Buffer A
  run b [] = b
  run b (c ∷ s) = run (step b c) s

  pub settle_over :
      (a : A) (b : Text)
      → ltb limit (length b) ≡ true
      → settle k limit a b ≡ skipping_from (k.overflow a b)
  unfolding settle
  settle_over a b h = rw h refl

  pub settle_under :
      (a : A) (b : Text) → ltb limit (length b) ≡ false → settle k limit a b ≡ waiting b a
  unfolding settle
  settle_under a b h = rw h refl

  pub step-skipping :
      (a : A) (c : ℕ)
      → (c == 10) ≡ false
      → step (skipping_from a) c ≡ skipping_from (k.skip a (c ∷ []))
  unfolding step
  step-skipping a c h = rw h refl

  pub step-waiting :
      (a : A) (b : Text) (c : ℕ)
      → (c == 10) ≡ false
      → step (waiting b a) c ≡ settle k limit a (b ++ c ∷ [])
  unfolding step
  step-waiting a b c h = rw h refl

  feed_lines_line :
      (a : A) (b t : Text)
      → has_newline b ≡ false
      → feed_lines k limit a (b ++ 10 ∷ t) ≡ feed_lines k limit (k.line a b) t
  unfolding feed_lines consume_lines
  feed_lines_line a b t h = rw (split_lines_line b t h) refl

  module _ (u : IsUniform k limit) where
    step_newline : (a : A) (b : Text) → step (settle k limit a b) 10 ≡ fresh (k.line a b)
    unfolding step
    step_newline a b = elim (Bool-cases (ltb limit (length b))) [
      | inl over ↦ rw (settle_over a b over, u.long_line a b (ground arith)) refl
      | inr under ↦ rw (settle_under a b under) refl
    ]

    step_unit :
        (a : A) (b : Text) (c : ℕ)
        → (c == 10) ≡ false
        → step (settle k limit a b) c ≡ settle k limit a (b ++ c ∷ [])
    step_unit a b c h = elim (Bool-cases (ltb limit (length b))) [
      | inl over ↦
          rw
            (
              settle_over a b over,
              step-skipping (k.overflow a b) c h,
              ← u.overflow-append a b (c ∷ []) (ground arith),
            )
            (sym (settle_over a (b ++ c ∷ []) (longer limit b c over)))
      | inr under ↦ rw (settle_under a b under, step-waiting a b c h) refl
    ]

    pub settle_nil : (a : A) → settle k limit a [] ≡ fresh a
    settle_nil a = settle_under a [] (ground arith)

    pub feed_lines-run :
        (a : A) (b t : Text)
        → has_newline b ≡ false
        → feed_lines k limit a (b ++ t) ≡ run (settle k limit a b) t
    unfolding feed_lines consume_lines
    feed_lines-run a b [] h = rw (append-nil b, split_lines_last b h) refl
    feed_lines-run a b (c ∷ t) h = elim (Bool-cases (c == 10)) [
      | inl same ↦
          let eq : c ≡ 10 = ground arith in
          rw (eq, step_newline a b, feed_lines_line a b t h)
            (feed_lines-run (k.line a b) [] t refl
              ∙ ap (λ (x : Buffer A). run x t) (settle_nil (k.line a b)))
      | inr other ↦
          rw (step_unit a b c other, ← append_assoc b (c ∷ []) t)
            (feed_lines-run a (b ++ c ∷ []) t (open_longer b c h other))
    ]

    pub feed_lines-fresh : (a : A) (t : Text) → feed_lines k limit a t ≡ run (fresh a) t
    feed_lines-fresh a t =
        feed_lines-run a [] t refl ∙ ap (λ (x : Buffer A). run x t) (settle_nil a)
