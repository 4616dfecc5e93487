-- ===== src/LineBuffer/Agree.antt =====
-- Two ways to take a line that agree on the lines of a stream do the same with it.
use ppq_enclave_proxy.Prelude.{
  ℕ, ◌≡◌, inl, inr, refl, sym, ap, ◌∙◌, Text, List, [], ◌∷◌, ◌++◌, Option, none, some, Bool, true,
  ◌&&◌, length, ltb, ◌==◌, Bool-cases, arith,
}
use mathlib.Core.List.{flatten}
use ppq_enclave_proxy.LineBuffer.{
  Consumer, Buffer, split_newline, add_unit, split_lines, add_first, consume_lines, settle,
  feed_lines, feed_rest, feed, feed_all,
}

module _ (q : ℕ → Bool) where
  abbrev pub all_units : Text → Bool
  all_units [] = true
  all_units (c ∷ s) = q c && all_units s

  abbrev all_lines_units : List Text → Bool
  all_lines_units [] = true
  all_lines_units (l ∷ ls) = all_units l && all_lines_units ls

  pub all_units-append : (s t : Text) → all_units (s ++ t) ≡ (all_units s && all_units t)
  all_units-append [] t = refl
  all_units-append (c ∷ s) t = ground (arith, all_units-append s t)

  abbrev lines_units : List Text × Text → Bool
  lines_units (ls, last) = all_lines_units ls && all_units last

  add_first_units :
      (c : ℕ) (ls : List Text) (last : Text)
      → q c ≡ true
      → lines_units (ls, last) ≡ true
      → lines_units (add_first c ls last) ≡ true
  add_first_units c [] last h k = ground arith
  add_first_units c (l ∷ ls) last h k = ground arith

  split_lines_units : (s : Text) → all_units s ≡ true → lines_units (split_lines s) ≡ true
  split_lines_units [] h = refl
  split_lines_units (c ∷ s) h =
      let rest = split_lines_units s (ground arith) in
      elim (Bool-cases (c == 10)) [
        | inl same ↦ rw same rest
        | inr other ↦
            rw other (add_first_units c (split_lines s).0 (split_lines s).1 (ground arith) rest)
      ]

  abbrev after_units : Option (Text × Text) → Bool
  after_units none = true
  after_units (some (before, rest)) = all_units rest

  add_unit_units :
      (c : ℕ) (x : Option (Text × Text)) → after_units x ≡ true → after_units (add_unit c x) ≡ true
  add_unit_units c none h = refl
  add_unit_units c (some (before, rest)) h = h

  split_newline_units : (s : Text) → all_units s ≡ true → after_units (split_newline s) ≡ true
  split_newline_units [] h = refl
  split_newline_units (c ∷ s) h = elim (Bool-cases (c == 10)) [
    | inl same ↦ rw same (ground arith)
    | inr other ↦
        rw other (add_unit_units c (split_newline s) (split_newline_units s (ground arith)))
  ]

  module _ {A : Type 0} (k : Consumer A) (line' : A → Text → A) (limit : ℕ)
      (agree : (a : A) (l : Text) → all_units l ≡ true → k.line a l ≡ line' a l) where
    abbrev k' : Consumer A
    k' = record k { line = line' }

    consume_lines_agree :
        (a : A) (ls : List Text)
        → all_lines_units ls ≡ true
        → consume_lines k limit a ls ≡ consume_lines k' limit a ls
    unfolding consume_lines
    consume_lines_agree a [] h = refl
    consume_lines_agree a (l ∷ ls) h =
        rw (agree a l (ground arith)) (consume_lines_agree (line' a l) ls (ground arith))

    settle_units :
        (a : A) (rest : Text)
        → all_units rest ≡ true
        → all_units (settle k limit a rest).buffer ≡ true
    unfolding settle
    settle_units a rest h = elim (Bool-cases (ltb limit (length rest))) [
      | inl over ↦ rw over refl
      | inr under ↦ rw under h
    ]

    -- The same state, with a buffer of such units.
    abbrev SameState : Buffer A → Buffer A → Type 0
    SameState b b' = (b ≡ b') × (all_units b.buffer ≡ true)

    feed_lines_agree :
        (a : A) (s : Text)
        → all_units s ≡ true
        → SameState (feed_lines k limit a s) (feed_lines k' limit a s)
    unfolding feed_lines settle
    feed_lines_agree a s h =
        let parts = split_lines_units s h in
        (
          rw (consume_lines_agree a (split_lines s).0 (ground arith)) refl,
          settle_units (consume_lines k limit a (split_lines s).0) (split_lines s).1 (ground arith),
        )

    feed_rest_agree :
        (b : Buffer A) (s : Text) (x : Option (Text × Text))
        → all_units b.buffer ≡ true
        → after_units x ≡ true
        → SameState (feed_rest k limit b s x) (feed_rest k' limit b s x)
    unfolding feed_rest
    feed_rest_agree b s none h g = (refl, h)
    feed_rest_agree b s (some (before, rest)) h g =
        feed_lines_agree (k.resume (k.skip b.consumed before)) (b.buffer ++ rest)
          (ground (arith, all_units-append b.buffer rest))

    feed_agree :
        (b : Buffer A) (s : Text)
        → all_units b.buffer ≡ true
        → all_units s ≡ true
        → SameState (feed k limit b s) (feed k' limit b s)
    unfolding feed
    feed_agree b s h g = elim (Bool-cases b.skipping) [
      | inl on ↦ rw on (
          feed_rest_agree (record b { skipping = true }) s (split_newline s) h
            (split_newline_units s g))
      | inr off ↦ rw off (
          feed_lines_agree b.consumed (b.buffer ++ s) (ground (arith, all_units-append b.buffer s)))
    ]

    pub feed_all_agree :
        (b : Buffer A) (chunks : List Text)
        → all_units b.buffer ≡ true
        → all_units (flatten chunks) ≡ true
        → feed_all k limit b chunks ≡ feed_all k' limit b chunks
    unfolding feed_all flatten
    feed_all_agree b [] h g = refl
    feed_all_agree b (chunk ∷ chunks) h g =
        let both : (all_units chunk && all_units (flatten chunks)) ≡ true =
          sym (all_units-append chunk (flatten chunks)) ∙ g in
        let step = feed_agree b chunk h (ground arith) in
        feed_all_agree (feed k limit b chunk) chunks step.1 (ground arith)
        ∙ ap (λ (x : Buffer A). feed_all k' limit x chunks) step.0

    pub feed_agree_lem :
        (b : Buffer A) (s : Text)
        → all_units b.buffer ≡ true
        → all_units s ≡ true
        → feed k limit b s ≡ feed k' limit b s
    feed_agree_lem b s h g = (feed_agree b s h g).0
