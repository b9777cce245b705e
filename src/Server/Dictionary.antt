-- ===== src/Server/Dictionary.antt =====
-- The dictionaries of the TCP server (asyncio_tcp_server.py): which keys they have, and how many.
use aionetx.Base.{
  ℕ, suc, String, ◌≤◌, ◌≡◌, refl, Bool, true, false, not, ◌&&◌, ◌||◌, List, [], ◌∷◌, arith, length,
  str_eq, eq_iff, Bool-cases, inl, inr, sym, ◌∙◌,
}
use aionetx.Server.{has_key, insert, remove}

same_text : (a b : String) → str_eq a b ≡ true → a ≡ b
same_text a b h = (eq_iff a b).0 h

str_eq_refl : (a : String) → str_eq a a ≡ true
str_eq_refl a = (eq_iff a a).1 refl

pub length-insert :
    (k : String) (v : ℕ) (entries : List (String × ℕ))
    → length (insert k v entries) ≤ suc (length entries)
length-insert k v [] = omega arith
length-insert k v ((j, u) ∷ entries) = ground (arith, length-insert k v entries)

pub length-remove :
    (k : String) (entries : List (String × ℕ)) → length (remove k entries) ≤ length entries
length-remove k [] = omega arith
length-remove k ((j, u) ∷ entries) = ground (arith, length-remove k entries)

-- Equal keys are tested alike.
test_at : (a b c : String) → str_eq a b ≡ true → str_eq c b ≡ str_eq c a
test_at a b c h = rw (same_text a b h) refl

pub has_key-insert :
    (a k : String) (v : ℕ) (entries : List (String × ℕ))
    → has_key a (insert k v entries) ≡ (str_eq a k || has_key a entries)
has_key-insert a k v [] = ground arith
has_key-insert a k v ((j, u) ∷ entries) = elim (Bool-cases (str_eq k j)) [
  | inl e ↦ ground (arith, e, test_at k j a e)
  | inr e ↦ ground (arith, e, has_key-insert a k v entries)
]

true_is_not_false : (b : Bool) → b ≡ true → b ≡ false → ⊥
true_is_not_false b h k = cc

apart : (a k j : String) → str_eq k j ≡ false → str_eq a j ≡ true → str_eq a k ≡ false
apart a k j e h = elim (Bool-cases (str_eq a k)) [
  | inl q ↦
      let p = sym (same_text a k q) ∙ same_text a j h in
      absurd (true_is_not_false (str_eq k j) ((eq_iff k j).1 p) e)
  | inr q ↦ q
]

pub has_key-remove :
    (a k : String) (entries : List (String × ℕ))
    → has_key a (remove k entries) ≡ (not (str_eq a k) && has_key a entries)
has_key-remove a k [] = ground arith
has_key-remove a k ((j, u) ∷ entries) = elim (Bool-cases (str_eq k j)) [
  | inl e ↦ ground (arith, e, test_at k j a e, has_key-remove a k entries)
  | inr e ↦ ground (arith, e, apart a k j e, has_key-remove a k entries)
]

pub has_key-at :
    (a k : String) (entries : List (String × ℕ))
    → str_eq a k ≡ true
    → has_key k entries ≡ true
    → has_key a entries ≡ true
has_key-at a k entries h e = rw (same_text a k h) e
