-- ===== src/Common/KeyValueCache.antt =====
-- securepath/common/key_value_cache.cpp: a cache in front of stores. A backend is a map that has what
-- was inserted in it; `backends_` is in the order of the set that it is.
pub mod Refines
mod Tests
use securepath.Base.{
  ℕ, Bool, true, false, List, [], ◌∷◌, ◌++◌, Option, none, some, map, if◌then◌else◌, take, drop,
}
use securepath.Crypto.Keys.{same}

abbrev pub Key : Type 0
Key = List ℕ

abbrev pub Store : Type 0
Store = Key → Option (List ℕ)

abbrev pub empty : Store
empty k = none

abbrev pub put : Key → List ℕ → Store → Store
put key octets m = λ k. if same k key then some octets else m k

abbrev pub without : Key → Store → Store
without key m = λ k. if same k key then none else m k

pub record KeyValueCache : Type 0 where
  pub data_ : Store
  pub backends : List Store

-- The first of the backends that has the key.
unfoldable pub or_else : Option (List ℕ) → Option (List ℕ) → Option (List ℕ)
or_else (some octets) rest = some octets
or_else none rest = rest

unfoldable pub find_in : Key → List Store → Option (List ℕ)
unfolding or_else
find_in key [] = none
find_in key (b ∷ bs) = or_else (b key) (find_in key bs)

unfoldable pub insert : Key → List ℕ → KeyValueCache → KeyValueCache
insert key octets s = record {
  data_ = put key octets s.data_;
  backends = map (put key octets) s.backends;
}

-- What a backend gave is kept.
unfoldable pub keep : Key → Option (List ℕ) → KeyValueCache → Option (List ℕ) × KeyValueCache
keep key none s = (none, s)
keep key (some octets) s = (some octets, record s { data_ = put key octets s.data_ })

unfoldable pub find_cached : Key → Option (List ℕ) → KeyValueCache → Option (List ℕ) × KeyValueCache
unfolding keep find_in
find_cached key (some octets) s = (some octets, s)
find_cached key none s = keep key (find_in key s.backends) s

unfoldable pub find : Key → KeyValueCache → Option (List ℕ) × KeyValueCache
unfolding find_cached
find key s = find_cached key (s.data_ key) s

unfoldable pub erase : Key → KeyValueCache → KeyValueCache
erase key s = record { data_ = without key s.data_; backends = map (without key) s.backends }

unfoldable pub clear : KeyValueCache → KeyValueCache
clear s = record { data_ = empty; backends = map (λ b. empty) s.backends }

-- The place of the new backend is the order of the pointers.
unfoldable pub add_backend : ℕ → Store → KeyValueCache → KeyValueCache
add_backend i b s = record s { backends = take i s.backends ++ b ∷ drop i s.backends }

unfoldable pub key_value_cache : Store → KeyValueCache
key_value_cache b = record { data_ = empty; backends = b ∷ [] }
