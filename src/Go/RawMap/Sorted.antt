-- ===== src/Go/RawMap/Sorted.antt =====
-- The maps that the program builds are in key order, so json.Unmarshal reads back what json.Marshal
-- writes.
use Prim.Native.Nat.{Ordering}
use Prim.Native.String.{compare}
use Prim.Native.String.compare
use text.Mathlib.TextEquality.{path_by_compare}
use mathlib.Core.Option
use mathlib.Core.List.{append-nil, append_assoc}
use cpa_codex_compact_bridge.Common.{
  Bool-cases, inl, inr, ◌==◌, String, ◌≡◌, refl, [], ◌∷◌, ◌++◌, arith, All, All-append, All-imp, ap,
  subst, ◌∙◌, sym,
}
use cpa_codex_compact_bridge.Errors.{ok, ok-injective}
use cpa_codex_compact_bridge.Go.Json.{Json, null, obj, Fields, end, field, from_pairs, compact}
use cpa_codex_compact_bridge.Go.RawMap.{
  RawMap, delete, insert, add_fields, raw_map, marshal_map, compact_values, lookup,
}

abbrev Before : String → String → Type 0
Before s t = compare s t ≡ Ordering.lt

Before-trans : (s t u : String) → Before s t → Before t u → Before s u
Before-trans String.[] String.[] u h k = k
Before-trans String.[] (String.◌∷◌ d t) String.[] h k = cc (compare.cons-nil d t)
Before-trans String.[] (String.◌∷◌ d t) (String.◌∷◌ e u) h k = compare.nil-cons e u
Before-trans (String.◌∷◌ c s) String.[] u h k = cc (compare.cons-nil c s)
Before-trans (String.◌∷◌ c s) (String.◌∷◌ d t) String.[] h k = cc (compare.cons-nil d t)
Before-trans (String.◌∷◌ c s) (String.◌∷◌ d t) (String.◌∷◌ e u) h k = ground (
  arith,
  compare.cons-cons c d s t,
  compare.cons-cons d e t u,
  compare.cons-cons c e s u,
  Before-trans s t u,
)

after_of_Before : (s t : String) → Before s t → compare t s ≡ Ordering.gt
after_of_Before String.[] String.[] h = cc (compare.nil-nil)
after_of_Before String.[] (String.◌∷◌ d t) h = compare.cons-nil d t
after_of_Before (String.◌∷◌ c s) String.[] h = cc (compare.cons-nil c s)
after_of_Before (String.◌∷◌ c s) (String.◌∷◌ d t) h =
    ground (arith, compare.cons-cons c d s t, compare.cons-cons d c t s, after_of_Before s t)

Before-of_after : (s t : String) → compare t s ≡ Ordering.gt → Before s t
Before-of_after String.[] String.[] h = cc (compare.nil-nil)
Before-of_after String.[] (String.◌∷◌ d t) h = compare.nil-cons d t
Before-of_after (String.◌∷◌ c s) String.[] h = cc (compare.nil-cons c s)
Before-of_after (String.◌∷◌ c s) (String.◌∷◌ d t) h =
    ground (arith, compare.cons-cons c d s t, compare.cons-cons d c t s, Before-of_after s t)

abbrev AllAfter : String → RawMap → Type 0
AllAfter k = All (λ e. Before k e.0)

-- The keys rise, so none is repeated.
abbrev pub IsSorted : RawMap → Type 0
IsSorted [] = Unit
IsSorted ((k, v) ∷ m) = AllAfter k m × IsSorted m

AllAfter-trans : (j k : String) (m : RawMap) → Before j k → AllAfter k m → AllAfter j m
AllAfter-trans j k [] h a = tt
AllAfter-trans j k ((i, v) ∷ m) h (b, a) = (Before-trans j k i h b, AllAfter-trans j k m h a)

insert-AllAfter :
    (j k : String) (v : Json) (m : RawMap) → Before j k → AllAfter j m → AllAfter j (insert k v m)
unfolding insert
insert-AllAfter j k v [] h a = (h, tt)
insert-AllAfter j k v ((i, w) ∷ m) h (b, a) = ground (arith, insert-AllAfter j k v m h a)

insert-IsSorted_at :
    (k j : String) (v w : Json) (m : RawMap) (o : Ordering)
    → compare k j ≡ o
    → IsSorted ((j, w) ∷ m)
    → IsSorted (insert k v m)
    → IsSorted (insert k v ((j, w) ∷ m))
unfolding insert
insert-IsSorted_at k j v w m Ordering.lt e (a, s) ih = rw e ((e, AllAfter-trans k j m e a), (a, s))
insert-IsSorted_at k j v w m Ordering.eq e (a, s) ih = rw e (rw (← path_by_compare k j e) at a, s)
insert-IsSorted_at k j v w m Ordering.gt e (a, s) ih =
    rw e (insert-AllAfter j k v m (Before-of_after j k e) a, ih)

pub insert-IsSorted : (k : String) (v : Json) (m : RawMap) → IsSorted m → IsSorted (insert k v m)
insert-IsSorted k v [] s = unfold insert in (tt, tt)
insert-IsSorted k v ((j, w) ∷ m) s =
    insert-IsSorted_at k j v w m (compare k j) refl s (insert-IsSorted k v m s.1)

add_fields-IsSorted : (m : RawMap) (fs : Fields) → IsSorted m → IsSorted (add_fields m fs)
unfolding add_fields
add_fields-IsSorted m end s = s
add_fields-IsSorted m (field k v fs) s =
    add_fields-IsSorted (insert k v m) fs (insert-IsSorted k v m s)

delete-AllAfter : (j k : String) (m : RawMap) → AllAfter j m → AllAfter j (delete k m)
unfolding delete
delete-AllAfter j k [] a = tt
delete-AllAfter j k ((i, w) ∷ m) (b, a) = elim (Bool-cases (i == k)) [
  | inl same ↦ rw same (delete-AllAfter j k m a)
  | inr other ↦ rw other (b, delete-AllAfter j k m a)
]

pub delete-IsSorted : (k : String) (m : RawMap) → IsSorted m → IsSorted (delete k m)
unfolding delete
delete-IsSorted k [] s = tt
delete-IsSorted k ((j, w) ∷ m) (a, s) = elim (Bool-cases (j == k)) [
  | inl same ↦ rw same (delete-IsSorted k m s)
  | inr other ↦ rw other (delete-AllAfter j k m a, delete-IsSorted k m s)
]

-- What is read from any value is sorted.
pub raw_map-IsSorted : (v : Json) (m : RawMap) → raw_map v ≡ ok m → IsSorted m
unfolding raw_map
raw_map-IsSorted (obj fs) m e = subst IsSorted (ok-injective e) (add_fields-IsSorted [] fs tt)
raw_map-IsSorted null m e = subst IsSorted (ok-injective e) tt
raw_map-IsSorted _ m e = cc

-- A key after all others goes to the end.
insert-last :
    (k : String) (v : Json) (m : RawMap)
    → All (λ e. Before e.0 k) m
    → insert k v m ≡ m ++ (k, v) ∷ []
unfolding insert
insert-last k v [] a = refl
insert-last k v ((j, w) ∷ m) (h, a) = rw (after_of_Before j k h, insert-last k v m a)

add_fields-from_pairs :
    (acc m : RawMap)
    → All (λ e. AllAfter e.0 m) acc
    → IsSorted m
    → add_fields acc (from_pairs m) ≡ acc ++ m
unfolding add_fields
add_fields-from_pairs acc [] a s = sym (append-nil acc)
add_fields-from_pairs acc ((k, v) ∷ m) a (b, s) =
    let last = insert-last k v acc (All-imp acc (λ e h. h.0) a) in
    let all = All-append (λ e. AllAfter e.0 m) acc _ (All-imp acc (λ e h. h.1) a) (b, tt) in
    ap (λ n. add_fields n (from_pairs m)) last
    ∙ add_fields-from_pairs (acc ++ (k, v) ∷ []) m all s
    ∙ append_assoc acc _ m

compact_values-AllAfter : (k : String) (m : RawMap) → AllAfter k m → AllAfter k (compact_values m)
compact_values-AllAfter k [] a = tt
compact_values-AllAfter k ((j, v) ∷ m) (h, a) = (h, compact_values-AllAfter k m a)

compact_values-IsSorted : (m : RawMap) → IsSorted m → IsSorted (compact_values m)
compact_values-IsSorted [] s = tt
compact_values-IsSorted ((k, v) ∷ m) (a, s) =
    (compact_values-AllAfter k m a, compact_values-IsSorted m s)

-- What json.Marshal writes of a sorted map, json.Unmarshal reads back.
pub raw_map-marshal_map :
    (m : RawMap) → IsSorted m → raw_map (marshal_map m) ≡ ok (compact_values m)
unfolding raw_map marshal_map
raw_map-marshal_map m s =
    ap (λ n. ok n) (add_fields-from_pairs [] (compact_values m) tt (compact_values-IsSorted m s))

pub lookup-compact_values :
    (k : String) (m : RawMap) → lookup k (compact_values m) ≡ Option.map compact (lookup k m)
unfolding lookup
lookup-compact_values k [] = refl
lookup-compact_values k ((j, v) ∷ m) = ground (arith, lookup-compact_values k m)
