-- ===== src/BalanceBackoff/Window.antt =====
-- Which refusals are remembered, for how long, and under which key.
use ppq_enclave_proxy.Prelude.{
  ℕ, ◌≤◌, ◌≡◌, ◌⊎◌, sym, ap, ◌∙◌, subst, ◌++◌, map, Option-cases, length, length-map, take, drop,
  take-append, drop-append, every, is_space, is_line_end, to_lower, codes, not, inl, inr, Text, [],
  ◌∷◌, Option, none, some, true, false, arith,
}
use ppq_enclave_proxy.Values.{Raw, text, number, other}
use ppq_enclave_proxy.BalanceBackoff.{
  bearer_token, presented_credential_key, drop_blanks, is_blank, Raw, text, number, other,
  usable_seconds, retry_after_seconds,
}

usable_seconds_pos : (r : Raw) {n : ℕ} → usable_seconds r ≡ some n → 1 ≤ n
unfolding usable_seconds
usable_seconds_pos (text s) h = ground arith
usable_seconds_pos (number true n d) h = cc
usable_seconds_pos (number false n d) h = ground arith
usable_seconds_pos other h = cc

-- What is honoured lies between 1 second and the cap of 60; it is the header's value where that is
-- usable, else the body's, and never longer than the source says.
pub retry_after_seconds_bounds :
    (header_value body_value : Raw) {n : ℕ}
    → retry_after_seconds header_value body_value ≡ some n
    → (1 ≤ n)
      × (n ≤ 60)
      × ((m : ℕ) × ((usable_seconds header_value ≡ some m)
            ⊎ ((usable_seconds header_value ≡ none) × (usable_seconds body_value ≡ some m)))
          × (n ≤ m))
unfolding retry_after_seconds
retry_after_seconds_bounds header_value body_value h =
    elim (Option-cases (usable_seconds header_value)) [
      | inl no_header ↦ elim (Option-cases (usable_seconds body_value)) [
        | inl no_body ↦ absurd (ground arith)
        | inr (m, e) ↦ (
          ground (arith, usable_seconds_pos body_value e),
          ground arith,
          (m, inr (no_header, e), ground arith),
        )
      ]
      | inr (m, e) ↦ (
        ground (arith, usable_seconds_pos header_value e),
        ground arith,
        (m, inl e, ground arith),
      )
    ]

drop_blanks-append :
    (blanks : Text) (c : ℕ) (s : Text)
    → every is_blank blanks ≡ true
    → is_blank c ≡ false
    → drop_blanks (blanks ++ c ∷ s) ≡ c ∷ s
unfolding drop_blanks
drop_blanks-append [] c s h k = rw k
drop_blanks-append (b ∷ blanks) c s h k = ground (arith, drop_blanks-append blanks c s)

is_blank-false : (c : ℕ) → is_space c ≡ false → is_blank c ≡ false
is_blank-false c h = ground arith

bearer_token-scheme :
    (scheme blanks : Text) (b c : ℕ) (s : Text)
    → map to_lower scheme ≡ codes "bearer"
    → is_blank b ≡ true
    → every is_blank blanks ≡ true
    → is_space c ≡ false
    → every (λ d. not (is_line_end d)) s ≡ true
    → bearer_token (scheme ++ (b ∷ (blanks ++ c ∷ s))) ≡ some (c ∷ s)
unfolding bearer_token
bearer_token-scheme scheme blanks b c s h hb hs hc hl =
    let six : length scheme ≡ 6 = sym (length-map to_lower scheme) ∙ ap length h in
    let rest : Text = b ∷ (blanks ++ c ∷ s) in
    let taken : take 6 (scheme ++ rest) ≡ scheme =
      subst (λ n. take n (scheme ++ rest) ≡ scheme) six (take-append scheme rest) in
    let dropped : drop 6 (scheme ++ rest) ≡ rest =
      subst (λ n. drop n (scheme ++ rest) ≡ rest) six (drop-append scheme rest) in
    rw (taken, dropped, h, hb, drop_blanks-append blanks c s hs (is_blank-false c hc)) (rw (hc, hl))

-- A request with a well-formed bearer token, in any spelling of the scheme and after any blanks, is
-- remembered under the hash of that token alone, whatever its other headers say.
pub presented_credential_key-bearer :
    (sha256 : Text → Text) (scheme blanks : Text) (b c : ℕ) (s : Text) (credit api : Option Text)
    → map to_lower scheme ≡ codes "bearer"
    → is_blank b ≡ true
    → every is_blank blanks ≡ true
    → is_space c ≡ false
    → every (λ d. not (is_line_end d)) s ≡ true
    → presented_credential_key sha256 (
        some (record {
          authorization = some (scheme ++ (b ∷ (blanks ++ c ∷ s)));
          x_credit_id = credit;
          x_api_key = api;
        }))
      ≡ some (sha256 (c ∷ s))
unfolding presented_credential_key
presented_credential_key-bearer sha256 scheme blanks b c s credit api h hb hs hc hl =
    rw (bearer_token-scheme scheme blanks b c s h hb hs hc hl)
