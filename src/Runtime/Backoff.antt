-- ===== src/Runtime/Backoff.antt =====
-- `ReconnectBackoff` of runtime_utils.py, and the settings that it reads (tcp_reconnect_settings.py,
-- reconnect_jitter.py).
use aionetx.Base.{◌≡◌, refl, Bool, true, false, if◌then◌else◌, arith}
use aionetx.Runtime.Floats.{Floats, IsOrdered}

-- `no_jitter` is `ReconnectJitter.NONE`.
pub data ReconnectJitter : Type 0 where
  no_jitter full equal : ReconnectJitter

pub record TcpReconnectSettings (F : Type 0) : Type 0 where
  pub enabled : Bool
  pub initial_delay_seconds : F
  pub max_delay_seconds : F
  pub backoff_factor : F
  pub jitter : ReconnectJitter

pub record ReconnectBackoff (F : Type 0) : Type 0 where
  pub settings : TcpReconnectSettings F
  pub current_delay : F

module _ {F : Type 0} (floats : Floats F) where
  -- What follows the validation of the settings.
  unfoldable pub new_backoff : TcpReconnectSettings F → ReconnectBackoff F
  new_backoff settings = record {
    settings = settings;
    current_delay = settings.initial_delay_seconds;
  }

  unfoldable pub reset : ReconnectBackoff F → ReconnectBackoff F
  reset b = record b { current_delay = b.settings.initial_delay_seconds }

  -- `min(a, b)`.
  abbrev minimum : F → F → F
  minimum a b = if floats.less b a then b else a

  module _ (uniform : F → F → F) where
    -- `uniform` is the draw of `random.uniform` in this call.
    abbrev apply_jitter : ReconnectJitter → F → F
    apply_jitter no_jitter delay = delay
    apply_jitter full delay = uniform floats.zero delay
    apply_jitter equal delay =
        floats.add (floats.half delay) (uniform floats.zero (floats.half delay))

    unfoldable pub next_delay : ReconnectBackoff F → ReconnectBackoff F × F
    next_delay b = (
      record b {
        current_delay =
            minimum (floats.mul b.current_delay b.settings.backoff_factor)
              b.settings.max_delay_seconds;
      },
      apply_jitter b.settings.jitter b.current_delay,
    )

  -- What `TcpReconnectSettings.validate` has checked of the delays and the factor.
  pub record IsValid (s : TcpReconnectSettings F) : Type 0 where
    pub factor_at_least_one : floats.at_most floats.one s.backoff_factor ≡ true
    pub max_at_least_initial : floats.less s.max_delay_seconds s.initial_delay_seconds ≡ false
    pub max_positive : floats.less floats.zero s.max_delay_seconds ≡ true
    pub initial_positive : floats.less floats.zero s.initial_delay_seconds ≡ true

  -- The delay is positive and at most the maximum.
  pub record IsBackoff (b : ReconnectBackoff F) : Type 0 where
    pub valid : IsValid b.settings
    pub positive : floats.less floats.zero b.current_delay ≡ true
    pub at_most_max : floats.less b.settings.max_delay_seconds b.current_delay ≡ false

  -- With ordered floats and valid settings: drawing a delay, whichever number is drawn, keeps the
  -- next delay positive and at most the maximum and does not let it shrink; a reset after it gives
  -- the state that the helper is built in, with a delay that is positive and at most the maximum;
  -- and without jitter the drawn delay is the current one.
  pub next_delay-IsBackoff :
      IsOrdered floats
      → (uniform : F → F → F) (b : ReconnectBackoff F) → IsBackoff b
      → let (b', delay) = next_delay uniform b in
        IsBackoff b'
        × (floats.less b'.current_delay b.current_delay ≡ false)
        × (reset b' ≡ new_backoff b.settings)
        × IsBackoff (reset b')
        × (b.settings.jitter ≡ no_jitter → delay ≡ b.current_delay)
  unfolding next_delay reset new_backoff
  next_delay-IsBackoff ordered uniform b w =
      let grows =
        ordered.mul_grows b.current_delay b.settings.backoff_factor w.positive
          w.valid.factor_at_least_one in
      let irrefl = ordered.less_irrefl b.settings.max_delay_seconds in
      (
        record {
          valid = w.valid;
          positive = ground (arith, grows.0, w.valid.max_positive);
          at_most_max = ground (arith, irrefl);
        },
        ground (arith, grows.1, w.at_most_max),
        refl,
        record {
          valid = w.valid;
          positive = w.valid.initial_positive;
          at_most_max = w.valid.max_at_least_initial;
        },
        λ h. ground (arith, h),
      )
