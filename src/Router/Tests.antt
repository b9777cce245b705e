-- ===== src/Router/Tests.antt =====
-- Handlers for a class, twice, and for its base class, and the theorem at them.
use aionetx.Base.{ℕ, ◌≡◌, refl, Bool, List, [], ◌∷◌, ◌==◌, ◌||◌, some}
use aionetx.Router.{dispatch, enumerate_from, Selects, dispatch-Selects}

abbrev handlers : List (ℕ × ℕ)
handlers = (9, 100) ∷ (5, 101) ∷ (5, 102) ∷ (7, 103) ∷ []

abbrev is_instance : ℕ → Bool
is_instance t = t == 5 || t == 9

dispatch-Selects_example :
    Selects
      (5 ∷ 9 ∷ [])
      is_instance
      (enumerate_from 0 handlers)
      (dispatch (5 ∷ 9 ∷ []) is_instance handlers)
dispatch-Selects_example = dispatch-Selects (5 ∷ 9 ∷ []) is_instance handlers

dispatch_to_first :
    (dispatch (5 ∷ 9 ∷ []) is_instance handlers).0
    ≡ some (record { best_distance = 0; best_registration_index = 1; selected_handler = 101 })
unfolding dispatch
dispatch_to_first = refl
