-- ===== src/Runtime/RateLimiter.antt =====
-- `WarningRateLimiter` of runtime_utils.py: which warnings are emitted, and what it remembers of them.
use aionetx.Base.{
  ℕ, suc, ◌≤◌, ◌≡◌, refl, String, Bool, true, false, not, ◌&&◌, Option, none, some, List, [], ◌∷◌,
  ◌++◌, map, if◌then◌else◌, ltb, leb, is_none, length, Result, ok, require, value_error, ◌>>◌,
  str_eq, eq_iff, arith,
}
use aionetx.Runtime.Floats.{Floats}

-- `_last_logged_at` in the order of the dictionary: an update leaves a key where it is.
pub record WarningRateLimiter (F : Type 0) : Type 0 where
  pub interval_seconds : F
  pub max_keys : ℕ
  pub last_logged_at : List (String × F)

module _ {F : Type 0} where
  -- `d.get(key)`.
  abbrev pub lookup : String → List (String × F) → Option F
  lookup key [] = none
  lookup key ((k, v) ∷ m) = if str_eq k key then some v else lookup key m

  -- `d[key] = v`.
  abbrev pub put : String → F → List (String × F) → List (String × F)
  put key v [] = (key, v) ∷ []
  put key v ((k, w) ∷ m) =
      let rest = put key v m in if str_eq k key then (k, v) ∷ m else (k, w) ∷ rest

  -- `del d[next(iter(d))]`.
  abbrev pub delete_oldest : List (String × F) → List (String × F)
  delete_oldest [] = []
  delete_oldest (p ∷ m) = m

  abbrev pub keys : List (String × F) → List String
  keys m = map (λ p. p.0) m

  module _ (floats : Floats F) where
    unfoldable pub new_limiter : F → ℕ → Result (WarningRateLimiter F)
    new_limiter interval_seconds max_keys =
        require (not (floats.at_most interval_seconds floats.zero)) value_error
        >> require (not (ltb max_keys 1)) value_error
        >> ok (record {
          interval_seconds = interval_seconds;
          max_keys = max_keys;
          last_logged_at = [];
        })

    -- `previous is None or (now - previous) >= self._interval_seconds`.
    abbrev is_due : F → WarningRateLimiter F → Option F → Bool
    is_due now l none = true
    is_due now l (some previous) = floats.at_most l.interval_seconds (floats.sub now previous)

    -- `should_log` at the time `now`.
    unfoldable pub should_log : F → String → WarningRateLimiter F → WarningRateLimiter F × Bool
    should_log now key l =
        let previous = lookup key l.last_logged_at in
        if is_due now l previous
        then (let kept =
              if is_none previous && leb l.max_keys (length l.last_logged_at)
              then delete_oldest l.last_logged_at
              else l.last_logged_at in
            (record l { last_logged_at = put key now kept }, true))
        else (l, false)

  lookup-put : (key : String) (v : F) (m : List (String × F)) → lookup key (put key v m) ≡ some v
  lookup-put key v [] = ground (arith, (eq_iff key key).1 refl)
  lookup-put key v ((k, w) ∷ m) = ground (arith, lookup-put key v m)

  keys-put :
      (key : String) (v : F) (m : List (String × F))
      → keys (put key v m) ≡ (if is_none (lookup key m) then keys m ++ key ∷ [] else keys m)
  keys-put key v [] = refl
  keys-put key v ((k, w) ∷ m) = ground (arith, keys-put key v m)

  length-keys : (m : List (String × F)) → length (keys m) ≡ length m
  length-keys [] = refl
  length-keys (p ∷ m) = omega (arith, length-keys m)

  lookup-delete_oldest :
      (key : String) (m : List (String × F))
      → lookup key m ≡ none
      → lookup key (delete_oldest m) ≡ none
  lookup-delete_oldest key [] h = refl
  lookup-delete_oldest key ((k, w) ∷ m) h = ground (arith)

  length-put :
      (key : String) (v : F) (m : List (String × F))
      → length (put key v m) ≡ (if is_none (lookup key m) then suc (length m) else length m)
  length-put key v [] = refl
  length-put key v ((k, w) ∷ m) = ground (arith, length-put key v m)

  length-delete_oldest :
      (m : List (String × F)) → 1 ≤ length m → suc (length (delete_oldest m)) ≡ length m
  length-delete_oldest [] h = omega (arith, h)
  length-delete_oldest (p ∷ m) h = refl

  -- The limiter never holds more keys than its limit, which is at least one.
  pub record IsCapped (l : WarningRateLimiter F) : Type 0 where
    pub positive : 1 ≤ l.max_keys
    pub capped : length l.last_logged_at ≤ l.max_keys

  module _ (floats : Floats F) where
    -- A limiter that is built is within its limit.
    new_limiter-IsCapped :
        (interval : F) (max_keys : ℕ) (l : WarningRateLimiter F)
        → new_limiter floats interval max_keys ≡ ok l
        → IsCapped l
    unfolding new_limiter
    new_limiter-IsCapped interval max_keys l h = ground arith

    -- Asking the limiter keeps its number of keys within the limit, if that is at least one and
    -- the keys are within it before.
    pub should_log-IsCapped :
        (now : F) (key : String) (l : WarningRateLimiter F)
        → IsCapped l
        → IsCapped (should_log floats now key l).0
    unfolding should_log
    should_log-IsCapped now key l c = ground (
      arith,
      length-put key now l.last_logged_at,
      length-put key now (delete_oldest l.last_logged_at),
      length-delete_oldest l.last_logged_at,
      lookup-delete_oldest key l.last_logged_at,
    )

    -- After a warning is emitted, the limiter refuses the same key, and does not change, at any
    -- time that is not yet the interval later.
    pub should_log_twice :
        (now later : F) (key : String) (l : WarningRateLimiter F)
        → (should_log floats now key l).1 ≡ true
        → floats.at_most l.interval_seconds (floats.sub later now) ≡ false
        → let l' = (should_log floats now key l).0 in should_log floats later key l' ≡ (l', false)
    unfolding should_log
    should_log_twice now later key l h e = ground (
      arith,
      e,
      lookup-put key now l.last_logged_at,
      lookup-put key now (delete_oldest l.last_logged_at),
    )

    -- The order of the keys, of which the first is the next to be forgotten: a known key stays
    -- where it is, also when its warning is emitted again; a new key comes last, and if the
    -- limiter was full the first one is forgotten.
    pub keys-should_log :
        (now : F) (key : String) (l : WarningRateLimiter F)
        → keys (should_log floats now key l).0.last_logged_at ≡ (
            if is_none (lookup key l.last_logged_at)
            then (if leb l.max_keys (length l.last_logged_at)
                then keys (delete_oldest l.last_logged_at)
                else keys l.last_logged_at)
              ++ key ∷ []
            else keys l.last_logged_at)
    unfolding should_log
    keys-should_log now key l = ground (
      arith,
      keys-put key now l.last_logged_at,
      keys-put key now (delete_oldest l.last_logged_at),
      lookup-delete_oldest key l.last_logged_at,
    )
