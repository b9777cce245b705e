-- ===== src/Settings/Clients.antt =====
-- Which settings of a TCP client `TcpClientSettings.validate` (tcp_client.py) accepts.
use aionetx.Base.{
  ℕ, ◌≡◌, ◌↔◌, ◌≤◌, refl, Bool, not, true, false, Option, none, some, Result, ok, err, ◌>>◌,
  Exception,
}
use aionetx.Settings.Values.{
  Value, none_value, int_value, negative_int, float_value, str_value, enum_value, an_error_policy,
  Builtins, require_enum_member, error_policies, is_positive_finite, is_true,
}
use aionetx.Settings.Delivery.{
  ReconnectFields, invalid, validate_delivery, validate_reconnect, validate_heartbeat,
}
use aionetx.Settings.Transports.{Nested, settings, ClientFields, unless_none, is_retry}

-- A call that returns a value.
abbrev Passes : {A : Type 0} → Result A → Type 0
Passes {A} m = (a : A) × (m ≡ ok a)

abbrev is_ok : {A : Type 0} → Result A → Bool
is_ok (ok a) = true
is_ok (err e) = false

-- Two calls in sequence return exactly if both do, each with what it asks for.
infixl 5 ◌and◌
◌and◌ :
    {A B P Q : Type 0} {m : Result A} {k : Result B}
    → Passes m ↔ P
    → Passes k ↔ Q
    → Passes (m >> k) ↔ (P × Q)
◌and◌ {m = ok a} p q = ((λ h. (p.0 (a, refl), q.0 h)), (λ h. q.1 h.1))
◌and◌ {m = err e} p q =
    ((λ h. absurd (fails h.0 h.1)), (λ h. absurd (fails (p.1 h.0).0 (p.1 h.0).1)))
  where
    fails : {A : Type 0} {x : Exception} (a : A) → err x ≡ ok a → ⊥
    fails a q = cc

module _ {F : Type 0} (builtins : Builtins F) where
  -- A text that is not blank, members of the enumerations included.
  abbrev pub is_text : Value F → Bool
  is_text (str_value s) = not (builtins.is_blank s)
  is_text (enum_value m) = true
  is_text _ = false

  abbrev pub IsIntIn : (low high : ℕ) → Value F → Type 0
  IsIntIn low high v = (n : ℕ) × (v ≡ int_value n) × (low ≤ n) × (n ≤ high)

  abbrev pub IsPositiveInt : Value F → Type 0
  IsPositiveInt v = (n : ℕ) × (v ≡ int_value n) × (1 ≤ n)

  abbrev pub is_positive_float : Option F → Bool
  is_positive_float none = false
  is_positive_float (some x) = is_positive_finite builtins x

  -- None, or a number whose float is finite and positive.
  abbrev pub is_timeout : Value F → Bool
  is_timeout none_value = true
  is_timeout (int_value n) = is_positive_float (builtins.float_of_int n)
  is_timeout (negative_int n) = is_positive_float (builtins.float_of_negative n)
  is_timeout (float_value x) = is_positive_finite builtins x
  is_timeout _ = false

  -- None, or a member of `ErrorPolicy`.
  abbrev pub is_policy : Value F → Bool
  is_policy none_value = true
  is_policy (enum_value (an_error_policy p)) = true
  is_policy _ = false

  -- Nested settings that are there, and are accepted by their own `validate`.
  abbrev pub Accepts : {Fields : Type 0} → (Fields → Result (Unit {0})) → Nested Fields → Type 0
  Accepts {Fields} test nested =
      (fields : Fields) × (nested ≡ settings fields) × (test fields ≡ ok tt)

  -- A client that is to retry has reconnect settings that are enabled.
  abbrev pub MayRetry : (is_retry : Bool) → Nested (ReconnectFields F) → Type 0
  MayRetry false reconnect = Unit
  MayRetry true reconnect =
      (fields : ReconnectFields F) × (reconnect ≡ settings fields)
      × (is_true builtins fields.enabled ≡ true)

  abbrev policy_test : Value F → Result (Unit {0})
  policy_test = unless_none (λ w. require_enum_member builtins invalid error_policies w >> ok tt)

  -- What the settings of a client are to be.
  pub record IsClient (s : ClientFields F) : Type 0 where
    pub host_given : is_text s.host ≡ true
    pub port_valid : IsIntIn 1 65535 s.port
    pub buffer_valid : IsPositiveInt s.receive_buffer_size
    pub connect_timeout_valid : is_timeout s.connect_timeout_seconds ≡ true
    pub send_timeout_valid : is_timeout s.connection_send_timeout_seconds ≡ true
    pub policy_valid : is_policy s.error_policy ≡ true
    pub may_retry : MayRetry (is_retry s.error_policy) s.reconnect
    pub reconnect_accepted : Accepts (validate_reconnect builtins) s.reconnect
    pub heartbeat_accepted : Accepts (validate_heartbeat builtins) s.heartbeat
    pub delivery_accepted : Accepts (validate_delivery builtins) s.event_delivery
