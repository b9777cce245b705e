-- ===== src/Runtime/Tests.antt =====
-- The helpers on floats that are natural numbers, and the theorems at them.
use aionetx.Base.{
  ℕ, suc, zero, ◌≡◌, ◌≤◌, ◌-◌, ◌+◌, ◌*◌, refl, true, false, none, some, [], ◌∷◌, arith, ltb, leb,
  err, cancelled_error, user_error, Option,
}
use aionetx.Runtime.Floats.{Floats, IsOrdered}
use aionetx.Runtime.RateLimiter.{WarningRateLimiter}
use aionetx.Runtime.Backoff.{
  ReconnectBackoff, no_jitter, next_delay, reset, new_backoff, IsBackoff, next_delay-IsBackoff,
}
use aionetx.Runtime.Guards.{
  await_task_completion, await_task_completion_lem, cancelled_while, completes, fails, Method,
}

halve : ℕ → ℕ
halve zero = zero
halve (suc zero) = zero
halve (suc (suc n)) = suc (halve n)

abbrev floats : Floats ℕ
floats = record {
  zero = 0;
  one = 1;
  add = λ x y. x + y;
  sub = λ x y. x - y;
  mul = λ x y. x * y;
  half = halve;
  less = ltb;
  at_most = leb;
}

grows : (x f : ℕ) → 1 ≤ x → 1 ≤ f → x ≤ x * f
grows x f p h = grind arith

floats-IsOrdered : IsOrdered floats
floats-IsOrdered = record {
  less_irrefl = λ x. ground arith;
  mul_grows = λ x f p h. ground (arith, grows x f);
}

-- A limiter that is full.
abbrev limiter : WarningRateLimiter ℕ
limiter = record { interval_seconds = 10; max_keys = 2; last_logged_at = ("a", 5) ∷ ("b", 7) ∷ [] }

abbrev backoff : ReconnectBackoff ℕ
backoff = record {
  settings = record {
    enabled = true;
    initial_delay_seconds = 1;
    max_delay_seconds = 30;
    backoff_factor = 2;
    jitter = no_jitter;
  };
  current_delay = 16;
}

backoff-IsBackoff : IsBackoff floats backoff
backoff-IsBackoff = record {
  valid = record {
    factor_at_least_one = refl;
    max_at_least_initial = refl;
    max_positive = refl;
    initial_positive = refl;
  };
  positive = refl;
  at_most_max = refl;
}

next_delay-IsBackoff_example :
    let (b, delay) = next_delay floats (λ a b. a) backoff in
    IsBackoff floats b
    × (ltb b.current_delay 16 ≡ false)
    × (reset floats b ≡ new_backoff floats backoff.settings)
    × IsBackoff floats (reset floats b)
    × (no_jitter ≡ no_jitter → delay ≡ 16)
next_delay-IsBackoff_example =
    next_delay-IsBackoff floats floats-IsOrdered (λ a b. a) backoff backoff-IsBackoff

await_task_completion_example :
    (await_task_completion false (cancelled_while true false ∷ []) ≡ none)
    × (await_task_completion false (cancelled_while true false ∷ cancelled_while true true ∷ [])
        ≡ some (err cancelled_error))
    × (await_task_completion false (cancelled_while true false ∷ completes ∷ [])
        ≡ some (err cancelled_error))
    × (await_task_completion false (cancelled_while true false ∷ fails (user_error 1) ∷ [])
        ≡ some (err (user_error 1)))
await_task_completion_example = await_task_completion_lem 1 (user_error 1) [] false

abbrev third : Option ℕ
third = some 3

abbrev no_owner : Option ℕ
no_owner = none

abbrev no_method : Option Method
no_method = none
