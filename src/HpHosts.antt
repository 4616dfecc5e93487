-- ===== src/HpHosts.antt =====
-- enclave/src/hpHosts.mjs: the names that horse-power may be reached under. A value of the
-- environment is text or is not set.
pub mod Pinned
pub mod Tests
use ppq_enclave_proxy.Prelude.{
  ℕ, Text, codes, eq_text, any_of, to_lower, trim, map, take, List, [], ◌∷◌, ◌++◌, Option, none,
  some, Bool, true, false, not, ◌&&◌, ◌==◌, if◌then◌else◌,
}

unfoldable pub hp_hosts : List Text
hp_hosts =
    codes "backend.ppq.ai"
    ∷ codes "ppq-backend-dev-a6fkdvbbbmg3dga3.canadacentral-01.azurewebsites.net"
    ∷ []

-- `replace(/\.$/, '')`
abbrev strip_dot : Text → Text
strip_dot [] = []
strip_dot (c ∷ []) = if c == b'.' then [] else c ∷ []
strip_dot (c ∷ d ∷ s) = c ∷ strip_dot (d ∷ s)

-- normalizeHpHost, of text.
unfoldable pub normalize_hp_host : Text → Text
normalize_hp_host value = strip_dot (map to_lower (trim value))

-- `split(',')`, of the text that `word` began.
abbrev split_commas : Text → Text → List Text
split_commas word [] = word ∷ []
split_commas word (c ∷ s) =
    if c == b',' then word ∷ split_commas [] s else split_commas (word ++ c ∷ []) s

abbrev pub is_empty : Text → Bool
is_empty [] = true
is_empty (c ∷ s) = false

-- `map(normalizeHpHost).filter(Boolean)`
unfoldable pub normalized_names : List Text → List Text
normalized_names [] = []
normalized_names (s ∷ ss) =
    if is_empty (normalize_hp_host s)
    then normalized_names ss
    else normalize_hp_host s ∷ normalized_names ss

-- testAllowedHpHosts, of HP_HOST_ALLOW.
unfoldable pub test_allowed_hp_hosts : Option Text → List Text
test_allowed_hp_hosts none = normalized_names (split_commas [] [])
test_allowed_hp_hosts (some raw) = normalized_names (split_commas [] raw)

abbrev pub is_listed : List Text → Text → Bool
is_listed names h = any_of (λ u. eq_text u h) names

-- isAllowedHpHost.
unfoldable pub is_allowed_hp_host : Text → List Text → Bool
is_allowed_hp_host value allow =
    not (is_empty (normalize_hp_host value))
    && is_listed (hp_hosts ++ allow) (normalize_hp_host value)

pub data Pin : Type 0 where
  unset : Pin
  pinned : (host : Text) → Pin
  rejected : (named : Text) → Pin

-- pinHpHost.
unfoldable pub pin_hp_host : Option Text → List Text → Pin
pin_hp_host none allow = unset
pin_hp_host (some value) allow =
    if is_empty (trim value)
    then unset
    else if is_listed (hp_hosts ++ allow) (normalize_hp_host value)
    then pinned (normalize_hp_host value)
    else rejected (take 253 value)
