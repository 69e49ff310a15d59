-- ===== src/Common/KeyValueCache/Tests.antt =====
-- The cache on a few calls.
use securepath.Base.{◌≡◌, List, [], ◌∷◌, none, some, refl}
use securepath.Crypto.Keys.{same}
use securepath.Common.KeyValueCache.{Store, empty, put, key_value_cache}
use securepath.Common.KeyValueCache.Refines.{
  Call, inserts, finds, erases, answers_of_map, answers_of_cache, answers-refine,
  key_value_cache-IsFor,
}

abbrev stored : Store
stored = put (1 ∷ []) (5 ∷ []) empty

abbrev calls : List Call
calls =
    finds (1 ∷ [])
    ∷ erases (1 ∷ [])
    ∷ finds (1 ∷ [])
    ∷ inserts (2 ∷ []) (6 ∷ [])
    ∷ finds (2 ∷ [])
    ∷ []

answers-refine_example :
    answers_of_cache calls (key_value_cache stored) ≡ answers_of_map calls stored
answers-refine_example =
    answers-refine calls stored (key_value_cache stored) (key_value_cache-IsFor stored)

answered : answers_of_map calls stored ≡ some (5 ∷ []) ∷ none ∷ none ∷ none ∷ some (6 ∷ []) ∷ []
unfolding same
answered = refl
