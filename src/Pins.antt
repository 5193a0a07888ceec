-- ===== src/Pins.antt =====
-- declared.go and diff.go: the pin of a result, which holds each node with its hash as "id@hash", and
-- the difference of two pins. The text that says what changed in a node is left out.
pub mod Pairs
pub mod Exact
use kgraph.Base.{
  Str, ℕ, ◌==◌, Bool, true, false, not, ◌&&◌, if◌then◌else◌, Option, none, some, List, [], ◌∷◌, map,
  keep, is_empty, str_eq, has, sort_strings,
}

pub record Pin : Type 0 where
  pub set_hash : Str
  pub count : ℕ
  pub sort : List Str
  pub nodes : List Str
  pub unresolved : List Str
  pub cites : List Str

-- strings.Cut(s, "@"), without whether the mark was found.
unfoldable pub cut : Str → Str × Str
cut [] = ([], [])
cut (c ∷ s) = let rest = cut s in if c == 64 then ([], s) else (c ∷ rest.0, rest.1)

-- The nodes of a pin, with their hashes, in their order.
unfoldable pub split_pin : List Str → List (Str × Str)
unfolding cut
split_pin nodes = map cut nodes

unfoldable pub order_of : List (Str × Str) → List Str
order_of [] = []
order_of ((id, hash) ∷ rest) = id ∷ order_of rest

-- The map of splitPin at an id: the last entry stays.
unfoldable pub hash_of : List (Str × Str) → Str → Option Str
hash_of [] id = none
hash_of ((k, v) ∷ rest) id = elim (hash_of rest id) [
  | some h ↦ some h
  | none ↦ if str_eq k id then some v else none
]

unfoldable pub is_pinned : List (Str × Str) → Str → Bool
unfolding hash_of
is_pinned pairs id = elim (hash_of pairs id) [ none ↦ false | some _ ↦ true ]

-- The two hashes of an id differ; a missing one is empty.
unfoldable pub or_blank : Option Str → Str
or_blank none = []
or_blank (some h) = h

unfoldable pub rehashed : List (Str × Str) → List (Str × Str) → Str → Bool
unfolding hash_of or_blank
rehashed before after id = not (str_eq (or_blank (hash_of before id)) (or_blank (hash_of after id)))

unfoldable pub equal : List Str → List Str → Bool
equal [] [] = true
equal (a ∷ xs) (b ∷ ys) = str_eq a b && equal xs ys
equal _ _ = false

unfoldable pub first : List Str → Str
first [] = []
first (x ∷ xs) = x

unfoldable pub last : List Str → Str
last [] = []
last (x ∷ []) = x
last (x ∷ y ∷ xs) = last (y ∷ xs)

pub record SetDelta : Type 0 where
  pub query : Str
  pub added : List Str
  pub removed : List Str
  pub changed : List Str
  pub count_before : ℕ
  pub count_after : ℕ
  pub reordered : Bool
  pub resolved : List Str
  pub new_holes : List Str
  pub first_moved : Str × Str
  pub last_moved : Str × Str

-- The two ends, where both orders have one and they differ.
unfoldable pub moved : Bool → Str → Str → Str × Str
moved both a b = if both && not (str_eq a b) then (a, b) else ([], [])

unfoldable pub delta_of : Str → Pin → Pin → List (Str × Str) → List (Str × Str) → SetDelta
unfolding is_pinned rehashed order_of equal first last moved
delta_of name before after old new =
    let was = order_of old in
    let is = order_of new in
    let added = keep (λ id. not (is_pinned old id)) is in
    let removed = keep (λ id. not (is_pinned new id)) was in
    let both = not (is_empty was) && not (is_empty is) in
    record {
      query = name;
      added = sort_strings added;
      removed = sort_strings removed;
      changed = keep (λ id. is_pinned new id && rehashed old new id) was;
      count_before = before.count;
      count_after = after.count;
      reordered = is_empty added && is_empty removed && not (equal was is);
      resolved = keep (λ q. not (has after.unresolved q)) before.unresolved;
      new_holes = keep (λ q. not (has before.unresolved q)) after.unresolved;
      first_moved = moved both (first was) (first is);
      last_moved = moved both (last was) (last is);
    }

unfoldable pub diff_pins : Str → Pin → Pin → SetDelta
unfolding delta_of split_pin
diff_pins name before after =
    delta_of name before after (split_pin before.nodes) (split_pin after.nodes)

unfoldable pub both_blank : Str × Str → Bool
both_blank (a, b) = is_empty a && is_empty b

-- Empty
unfoldable pub is_empty_delta : SetDelta → Bool
unfolding both_blank
is_empty_delta d =
    is_empty d.added
    && is_empty d.removed
    && is_empty d.changed
    && is_empty d.resolved
    && is_empty d.new_holes
    && (d.count_before == d.count_after)
    && not d.reordered
    && both_blank d.first_moved
    && both_blank d.last_moved
