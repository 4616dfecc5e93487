-- ===== src/LineBuffer/Chunks.antt =====
-- What the buffer does with a sequence of chunks.
use ppq_enclave_proxy.Prelude.{
  ℕ, ◌≡◌, sym, ap, ◌∙◌, Text, List, [], ◌∷◌, ◌++◌, false, length, ltb, ◌==◌, Option, none, some,
  inl, inr, Bool-cases, arith, refl,
}
use mathlib.Core.List.{flatten}
use ppq_enclave_proxy.LineBuffer.{
  Consumer, Buffer, IsUniform, fresh, waiting, skipping_from, add_unit, split_newline, settle,
  feed_lines, feed_rest, feed, feed_all,
}
use ppq_enclave_proxy.LineBuffer.Units.{
  open_longer, feed_lines-fresh, has_newline, step, run, settle_under, settle_over, step-skipping,
  feed_lines-run,
}

-- Nothing is held while a line is skipped, and what is held otherwise has no newline and keeps the
-- limit.
pub data IsReady {A : Type 0} (limit : ℕ) : Buffer A → Type 0 where
  skips : (a : A) → IsReady limit (skipping_from a)
  waits :
      (a : A) (rest : Text)
      → ltb limit (length rest) ≡ false
      → has_newline rest ≡ false
      → IsReady limit (waiting rest a)

module _ {A : Type 0} (k : Consumer A) (limit : ℕ) (u : IsUniform k limit) where
  feed_rest_unit :
      (a : A) (c : ℕ) (t : Text) (x : Option (Text × Text))
      → feed_rest k limit (skipping_from a) (c ∷ t) (add_unit c x)
        ≡ feed_rest k limit (skipping_from (k.skip a (c ∷ []))) t x
  unfolding feed_rest
  feed_rest_unit a c t none = rw (u.skip-append a (c ∷ []) t) refl
  feed_rest_unit a c t (some (before, rest)) = rw (u.skip-append a (c ∷ []) before) refl

  step_resumes :
      (a : A) (t : Text)
      → feed_lines k limit (k.resume a) t ≡ run k limit (step k limit (skipping_from a) 10) t
  unfolding step
  step_resumes a t = feed_lines-fresh k limit u (k.resume a) t

  feed_rest-run :
      (a : A) (t : Text)
      → feed_rest k limit (skipping_from a) t (split_newline t) ≡ run k limit (skipping_from a) t
  unfolding feed_rest
  feed_rest-run a [] = rw (u.skip-nil a) refl
  feed_rest-run a (c ∷ t) = elim (Bool-cases (c == 10)) [
    | inl same ↦ let eq : c ≡ 10 = ground arith in rw (eq, u.skip-nil a) (step_resumes a t)
    | inr other ↦
        rw (other, step-skipping k limit a c other, feed_rest_unit a c t (split_newline t))
          (feed_rest-run (k.skip a (c ∷ [])) t)
  ]

  feed-run : (b : Buffer A) (t : Text) → IsReady limit b → feed k limit b t ≡ run k limit b t
  unfolding feed
  feed-run b t (skips a) = feed_rest-run a t
  feed-run b t (waits a rest short whole) =
      feed_lines-run k limit u a rest t whole
      ∙ ap (λ (x : Buffer A). run k limit x t) (settle_under k limit a rest short)

  pub fresh-IsReady : (a : A) → IsReady limit (fresh a)
  fresh-IsReady a = waits a [] (ground arith) refl

  settle-IsReady : (a : A) (b : Text) → has_newline b ≡ false → IsReady limit (settle k limit a b)
  settle-IsReady a b h = elim (Bool-cases (ltb limit (length b))) [
    | inl over ↦ rw (settle_over k limit a b over) (skips (k.overflow a b))
    | inr under ↦ rw (settle_under k limit a b under) (waits a b under h)
  ]

  step-IsReady : (b : Buffer A) (c : ℕ) → IsReady limit b → IsReady limit (step k limit b c)
  unfolding step
  step-IsReady b c (skips a) = elim (Bool-cases (c == 10)) [
    | inl same ↦ rw same (fresh-IsReady (k.resume a))
    | inr other ↦ rw other (skips (k.skip a (c ∷ [])))
  ]
  step-IsReady b c (waits a rest short whole) = elim (Bool-cases (c == 10)) [
    | inl same ↦ rw same (fresh-IsReady (k.line a rest))
    | inr other ↦ rw other (settle-IsReady a (rest ++ c ∷ []) (open_longer rest c whole other))
  ]

  run-IsReady : (b : Buffer A) (t : Text) → IsReady limit b → IsReady limit (run k limit b t)
  run-IsReady b [] r = r
  run-IsReady b (c ∷ t) r = run-IsReady (step k limit b c) t (step-IsReady b c r)

  run-append :
      (b : Buffer A) (s t : Text) → run k limit b (s ++ t) ≡ run k limit (run k limit b s) t
  run-append b [] t = refl
  run-append b (c ∷ s) t = run-append (step k limit b c) s t

  -- What is held is bounded after every chunk.
  pub feed-IsReady : (b : Buffer A) (t : Text) → IsReady limit b → IsReady limit (feed k limit b t)
  feed-IsReady b t r = rw (feed-run b t r) (run-IsReady b t r)

  pub feed-append :
      (b : Buffer A) (s t : Text)
      → IsReady limit b
      → feed k limit (feed k limit b s) t ≡ feed k limit b (s ++ t)
  feed-append b s t r =
      rw (feed-run (feed k limit b s) t (feed-IsReady b s r), feed-run b s r, feed-run b (s ++ t) r)
        (sym (run-append b s t))

  pub feed_all-feed :
      (b : Buffer A) (chunks : List Text)
      → IsReady limit b
      → feed_all k limit b chunks ≡ feed k limit b (flatten chunks)
  unfolding feed_all flatten
  feed_all-feed b [] r = sym (feed-run b [] r)
  feed_all-feed b (chunk ∷ chunks) r =
      feed_all-feed (feed k limit b chunk) chunks (feed-IsReady b chunk r)
      ∙ feed-append b chunk (flatten chunks) r
