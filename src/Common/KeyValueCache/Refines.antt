-- ===== src/Common/KeyValueCache/Refines.antt =====
-- A cache refines a map: whatever it caches, it answers as one map would.
use securepath.Base.{
  ℕ, ◌≡◌, refl, ap, sym, ◌∙◌, true, false, List, [], ◌∷◌, Option, none, some, arith, map, ◌<◌,
  length, if◌then◌else◌, Bool-cases, inl, inr, ◌⊎◌,
}
use securepath.Crypto.Keys.{same, same_lem}
use securepath.Common.KeyValueCache.{
  Key, Store, empty, put, without, KeyValueCache, or_else, find_in, insert, keep, find_cached, find,
  erase, clear, key_value_cache,
}

-- What is cached is what the backends say, there is a backend, and together they are the map `m`.
pub record IsFor (m : Store) (s : KeyValueCache) : Type 0 where
  pub coherent :
      (k : Key) (octets : List ℕ) → s.data_ k ≡ some octets → find_in k s.backends ≡ some octets
  pub backed : 0 < length s.backends
  pub says : (k : Key) → find_in k s.backends ≡ m k

pub data Call : Type 0 where
  inserts : Key → List ℕ → Call
  finds erases : Key → Call
  clears : Call

-- The calls on the map alone, with what they answer.
abbrev pub on_map : Call → Store → Option (List ℕ) × Store
on_map (inserts k octets) m = (none, put k octets m)
on_map (finds k) m = (m k, m)
on_map (erases k) m = (none, without k m)
on_map clears m = (none, empty)

abbrev pub on_cache : Call → KeyValueCache → Option (List ℕ) × KeyValueCache
on_cache (inserts k octets) s = (none, insert k octets s)
on_cache (finds k) s = find k s
on_cache (erases k) s = (none, erase k s)
on_cache clears s = (none, clear s)

abbrev pub answers_of_map : List Call → Store → List (Option (List ℕ))
answers_of_map [] m = []
answers_of_map (x ∷ xs) m = (on_map x m).0 ∷ answers_of_map xs (on_map x m).1

abbrev pub answers_of_cache : List Call → KeyValueCache → List (Option (List ℕ))
answers_of_cache [] s = []
answers_of_cache (x ∷ xs) s = (on_cache x s).0 ∷ answers_of_cache xs (on_cache x s).1

length-map : (f : Store → Store) (bs : List Store) → length (map f bs) ≡ length bs
length-map f [] = refl
length-map f (b ∷ bs) = omega (arith, length-map f bs)

-- Backends that are all changed the same way at a key.
find_in-put :
    (k key : Key) (octets : List ℕ) (bs : List Store)
    → same k key ≡ true
    → 0 < length bs
    → find_in k (map (put key octets) bs) ≡ some octets
unfolding find_in or_else
find_in-put k key octets [] h lo = absurd (omega arith)
find_in-put k key octets (b ∷ bs) h lo = rw h refl

find_in-elsewhere :
    (f : Store → Store) (k : Key) (bs : List Store)
    → ((b : Store) → f b k ≡ b k)
    → find_in k (map f bs) ≡ find_in k bs
unfolding find_in
find_in-elsewhere f k [] h = refl
find_in-elsewhere f k (b ∷ bs) h = rw (h b, find_in-elsewhere f k bs h) refl

find_in-gone :
    (f : Store → Store) (k : Key) (bs : List Store)
    → ((b : Store) → f b k ≡ none)
    → find_in k (map f bs) ≡ none
unfolding find_in or_else
find_in-gone f k [] h = refl
find_in-gone f k (b ∷ bs) h = rw (h b) (find_in-gone f k bs h)

insert-says :
    (key : Key) (octets : List ℕ) (m : Store) (s : KeyValueCache)
    → IsFor m s
    → (k : Key) → find_in k (insert key octets s).backends ≡ put key octets m k
unfolding insert
insert-says key octets m s i k = elim (Bool-cases (same k key)) [
  | inl here ↦
      find_in-put k key octets s.backends here i.backed
      ∙ sym (ap (λ t. if t then some octets else m k) here)
  | inr other ↦
      find_in-elsewhere (put key octets) k s.backends
        (λ b. ap (λ t. if t then some octets else b k) other)
      ∙ i.says k
      ∙ sym (ap (λ t. if t then some octets else m k) other)
]

insert-coherent :
    (key : Key) (octets : List ℕ) (m : Store) (s : KeyValueCache)
    → IsFor m s
    → (k : Key) (x : List ℕ) → put key octets s.data_ k ≡ some x
    → find_in k (insert key octets s).backends ≡ some x
unfolding insert
insert-coherent key octets m s i k x h = elim (Bool-cases (same k key)) [
  | inl here ↦
      find_in-put k key octets s.backends here i.backed
      ∙ sym (ap (λ t. if t then some octets else s.data_ k) here)
      ∙ h
  | inr other ↦
      find_in-elsewhere (put key octets) k s.backends
        (λ b. ap (λ t. if t then some octets else b k) other)
      ∙ i.coherent k x (sym (ap (λ t. if t then some octets else s.data_ k) other) ∙ h)
]

erase-says :
    (key : Key) (m : Store) (s : KeyValueCache)
    → IsFor m s
    → (k : Key) → find_in k (erase key s).backends ≡ without key m k
unfolding erase
erase-says key m s i k = elim (Bool-cases (same k key)) [
  | inl here ↦
      find_in-gone (without key) k s.backends (λ b. ap (λ t. if t then none else b k) here)
      ∙ sym (ap (λ t. if t then none else m k) here)
  | inr other ↦
      find_in-elsewhere (without key) k s.backends (λ b. ap (λ t. if t then none else b k) other)
      ∙ i.says k
      ∙ sym (ap (λ t. if t then none else m k) other)
]

erase-coherent :
    (key : Key) (m : Store) (s : KeyValueCache)
    → IsFor m s
    → (k : Key) (x : List ℕ) → without key s.data_ k ≡ some x
    → find_in k (erase key s).backends ≡ some x
unfolding erase
erase-coherent key m s i k x h = elim (Bool-cases (same k key)) [
  | inl here ↦ absurd (ground (arith, sym (ap (λ t. if t then none else s.data_ k) here) ∙ h))
  | inr other ↦
      find_in-elsewhere (without key) k s.backends (λ b. ap (λ t. if t then none else b k) other)
      ∙ i.coherent k x (sym (ap (λ t. if t then none else s.data_ k) other) ∙ h)
]

call-IsFor :
    (x : Call) (m : Store) (s : KeyValueCache) → IsFor m s → IsFor (on_map x m).1 (on_cache x s).1
unfolding insert erase clear find find_cached keep
call-IsFor (inserts key octets) m s i = record {
  coherent = insert-coherent key octets m s i;
  backed = omega (arith, length-map (put key octets) s.backends, i.backed);
  says = insert-says key octets m s i;
}
call-IsFor (erases key) m s i = record {
  coherent = erase-coherent key m s i;
  backed = omega (arith, length-map (without key) s.backends, i.backed);
  says = erase-says key m s i;
}
call-IsFor clears m s i = record {
  coherent = λ k x h. absurd (ground (arith, h));
  backed = omega (arith, length-map (λ b. empty) s.backends, i.backed);
  says = λ k. find_in-gone (λ b. empty) k s.backends (λ b. refl);
}
call-IsFor (finds key) m s i = cached (s.data_ key)
  where
    cached_at :
        (octets : List ℕ)
        → find_in key s.backends ≡ some octets
        → (k : Key) (x : List ℕ) → put key octets s.data_ k ≡ some x
        → (same k key ≡ true) ⊎ (same k key ≡ false)
        → find_in k s.backends ≡ some x
    cached_at octets e k x h (inl here) =
        ap (λ t. find_in t s.backends) (same_lem k key here)
        ∙ e
        ∙ sym (ap (λ t. if t then some octets else s.data_ k) here)
        ∙ h
    cached_at octets e k x h (inr other) =
        i.coherent k x (sym (ap (λ t. if t then some octets else s.data_ k) other) ∙ h)

    kept : (o : Option (List ℕ)) → find_in key s.backends ≡ o → IsFor m (keep key o s).1
    kept none e = i
    kept (some octets) e = record {
      coherent = λ k x h. cached_at octets e k x h (Bool-cases (same k key));
      backed = i.backed;
      says = i.says;
    }

    cached : (o : Option (List ℕ)) → IsFor m (find_cached key o s).1
    cached (some octets) = i
    cached none = kept (find_in key s.backends) refl

call-answers :
    (x : Call) (m : Store) (s : KeyValueCache) → IsFor m s → (on_cache x s).0 ≡ (on_map x m).0
unfolding find find_cached keep
call-answers (inserts key octets) m s i = refl
call-answers (erases key) m s i = refl
call-answers clears m s i = refl
call-answers (finds key) m s i = cached (s.data_ key) refl
  where
    kept : (o : Option (List ℕ)) → (keep key o s).0 ≡ o
    kept none = refl
    kept (some octets) = refl

    cached : (o : Option (List ℕ)) → s.data_ key ≡ o → (find_cached key o s).0 ≡ m key
    cached (some octets) e = sym (i.coherent key octets e) ∙ i.says key
    cached none e = kept (find_in key s.backends) ∙ i.says key

-- A cache in front of backends that hold a map answers each call as the map itself does, whatever is
-- cached and whatever calls came before: it forgets nothing, and nothing that was erased comes back.
pub answers-refine :
    (xs : List Call) (m : Store) (s : KeyValueCache)
    → IsFor m s
    → answers_of_cache xs s ≡ answers_of_map xs m
answers-refine [] m s i = refl
answers-refine (x ∷ xs) m s i =
    ap (λ t. t ∷ answers_of_cache xs (on_cache x s).1) (call-answers x m s i)
    ∙ ap (λ t. (on_map x m).0 ∷ t)
        (answers-refine xs (on_map x m).1 (on_cache x s).1 (call-IsFor x m s i))

-- A new cache is for the map of its backend.
pub key_value_cache-IsFor : (b : Store) → IsFor b (key_value_cache b)
unfolding key_value_cache find_in or_else
key_value_cache-IsFor b = record {
  coherent = λ k x h. absurd (ground (arith, h));
  backed = omega arith;
  says = λ k. only (b k);
}
  where
    only : (o : Option (List ℕ)) → or_else o none ≡ o
    only none = refl
    only (some octets) = refl
