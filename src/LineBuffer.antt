-- ===== src/LineBuffer.antt =====
-- The line buffer that enclave/src/outputCount.mjs and reasoningMirror.mjs share in shape:
-- complete lines are handed on, the last one waits for its newline, and one that grows past a limit
-- is given up until the next newline. What is done with the lines is a parameter.
pub mod Units
pub mod Chunks
pub mod Agree
pub mod Split
use ppq_enclave_proxy.Prelude.{
  ℕ, ◌+◌, ◌≤◌, ◌<◌, ◌≡◌, Text, List, [], ◌∷◌, ◌++◌, Option, none, some, Bool, true, false, length,
  ltb, ◌==◌, if◌then◌else◌,
}

-- What happens to a complete line, to an unfinished one past the limit, to what follows of it, and at
-- its newline.
pub record Consumer (A : Type 0) : Type 0 where
  pub line : A → Text → A
  pub overflow : A → Text → A
  pub skip : A → Text → A
  pub resume : A → A

pub record Buffer (A : Type 0) : Type 0 where
  pub buffer : Text
  pub skipping : Bool
  pub consumed : A

-- Waiting for the newline of a line, and skipping to the newline of one that was given up.
abbrev pub waiting : {A : Type 0} → Text → A → Buffer A
waiting rest a = record { buffer = rest; skipping = false; consumed = a }

abbrev pub skipping_from : {A : Type 0} → A → Buffer A
skipping_from a = record { buffer = []; skipping = true; consumed = a }

abbrev pub fresh : {A : Type 0} → A → Buffer A
fresh a = waiting [] a

abbrev pub add_unit : ℕ → Option (Text × Text) → Option (Text × Text)
add_unit c none = none
add_unit c (some (before, rest)) = some (c ∷ before, rest)

-- What stands before the first newline and after it; `none` where there is no newline.
abbrev pub split_newline : Text → Option (Text × Text)
split_newline [] = none
split_newline (c ∷ s) = if c == 10 then some ([], s) else add_unit c (split_newline s)

abbrev pub add_first : ℕ → List Text → Text → List Text × Text
add_first c [] last = ([], c ∷ last)
add_first c (l ∷ ls) last = ((c ∷ l) ∷ ls, last)

abbrev pub add_to_line : ℕ → List Text × Text → List Text × Text
add_to_line c (ls, last) = if c == 10 then ([] ∷ ls, last) else add_first c ls last

-- `split('\n')`: the complete lines, and the last, which `pop` takes.
abbrev pub split_lines : Text → List Text × Text
split_lines [] = ([], [])
split_lines (c ∷ s) = add_to_line c (split_lines s)

module _ {A : Type 0} (k : Consumer A) (limit : ℕ) where
  -- The loop over the lines.
  unfoldable pub consume_lines : A → List Text → A
  consume_lines a [] = a
  consume_lines a (l ∷ ls) = consume_lines (k.line a l) ls

  -- An unfinished line past the limit is given up.
  unfoldable pub settle : A → Text → Buffer A
  settle a rest =
      if ltb limit (length rest) then skipping_from (k.overflow a rest) else waiting rest a

  -- What is done with a chunk outside a line that was given up.
  unfoldable pub feed_lines : A → Text → Buffer A
  unfolding consume_lines settle
  feed_lines a text = let ls = split_lines text in settle (consume_lines a ls.0) ls.1

  -- What is done with a chunk in a line that was given up.
  abbrev pub feed_rest : Buffer A → Text → Option (Text × Text) → Buffer A
  unfolding feed_lines
  feed_rest b chunk none = record b { consumed = k.skip b.consumed chunk }
  feed_rest b chunk (some (before, rest)) =
      feed_lines (k.resume (k.skip b.consumed before)) (b.buffer ++ rest)

  -- `feed`.
  unfoldable pub feed : Buffer A → Text → Buffer A
  unfolding feed_rest
  feed b chunk =
      if b.skipping
      then feed_rest b chunk (split_newline chunk)
      else feed_lines b.consumed (b.buffer ++ chunk)

  -- Feeding chunks in turn.
  unfoldable pub feed_all : Buffer A → List Text → Buffer A
  feed_all b [] = b
  feed_all b (chunk ∷ chunks) = feed_all (feed b chunk) chunks

-- Giving up a line leaves what a complete line of that length would leave.
pub record IsUniform {A : Type 0} (k : Consumer A) (limit : ℕ) : Type 0 where
  pub long_line : (a : A) (l : Text) → limit < length l → k.line a l ≡ k.resume (k.overflow a l)
  pub overflow-append :
      (a : A) (l s : Text) → limit < length l → k.overflow a (l ++ s) ≡ k.skip (k.overflow a l) s
  pub skip-append : (a : A) (s t : Text) → k.skip a (s ++ t) ≡ k.skip (k.skip a s) t
  pub skip-nil : (a : A) → k.skip a [] ≡ a
