-- ===== src/Pins/Exact.antt =====
-- What an empty difference of two pins says.
use kgraph.Base.{
  Str, ◌≡◌, refl, subst, ◌↔◌, Bool, true, false, not, ◌&&◌, List, arith, In, keep, is_empty, has,
  has_iff, str_eq, str_eq_iff, str_eq_refl, NoRepeat, SameMembers, sort_strings, in-sort_strings,
  ==_iff,
}
use kgraph.Pins.{
  Pin, split_pin, order_of, hash_of, is_pinned, or_blank, rehashed, equal, first, last, moved,
  delta_of, diff_pins, both_blank, is_empty_delta,
}
use kgraph.Pins.Pairs.{
  equal_refl, equal_sound, is_pinned_iff, is_empty_iff, is_empty-keep, is_empty-sort_strings,
  same_pairs,
}

-- What each test of an empty difference says of the two orders.
record Unmoved (before after : Pin) (old new : List (Str × Str)) : Type 0 where
  no_more : is_empty (sort_strings (keep (λ id. not (is_pinned old id)) (order_of new))) ≡ true
  no_less : is_empty (sort_strings (keep (λ id. not (is_pinned new id)) (order_of old))) ≡ true
  kept : is_empty (keep (λ id. is_pinned new id && rehashed old new id) (order_of old)) ≡ true
  answered : is_empty (keep (λ q. not (has after.unresolved q)) before.unresolved) ≡ true
  opened : is_empty (keep (λ q. not (has before.unresolved q)) after.unresolved) ≡ true
  counted : before.count ≡ after.count
  in_order :
      (is_empty (keep (λ id. not (is_pinned old id)) (order_of new))
        && is_empty (keep (λ id. not (is_pinned new id)) (order_of old))
        && not (equal (order_of old) (order_of new)))
      ≡ false

unmoved :
    (name : Str) (before after : Pin) (old new : List (Str × Str))
    → is_empty_delta (delta_of name before after old new) ≡ true
    → Unmoved before after old new
unfolding is_empty_delta delta_of both_blank
unmoved name before after old new h = ground arith

not-false : (b : Bool) → not b ≡ false → b ≡ true
not-false true h = refl
not-false false h = cc h

filter_same :
    (xs ys : List Str)
    → is_empty (keep (λ q. not (has ys q)) xs) ≡ true
    → (a : Str) → In a xs
    → In a ys
filter_same xs ys h a i =
    (has_iff ys a).0 (not-false (has ys a) ((is_empty-keep (λ q. not (has ys q)) xs).0 h a i))

rehashed_self : (m : List (Str × Str)) (id : Str) → rehashed m m id ≡ false
unfolding rehashed
rehashed_self m id = rw (str_eq_refl (or_blank (hash_of m id)))

and-false : (b : Bool) → (b && false) ≡ false
and-false true = refl
and-false false = refl

is_empty-sort_strings_of : (xs : List Str) → is_empty xs ≡ true → is_empty (sort_strings xs) ≡ true
is_empty-sort_strings_of xs h =
    (is_empty_iff (sort_strings xs)).1 (λ a i. (is_empty_iff xs).0 h a ((in-sort_strings a xs).0 i))

-- An empty difference means that the two pins hold the same nodes with the same hashes.
same_nodes :
    (before after : Pin) (old new : List (Str × Str))
    → NoRepeat (order_of old)
    → Unmoved before after old new
    → old ≡ new
unfolding rehashed
same_nodes before after old new u w =
    let more =
      is_empty-sort_strings (keep (λ id. not (is_pinned old id)) (order_of new)) w.no_more in
    let less =
      is_empty-sort_strings (keep (λ id. not (is_pinned new id)) (order_of old)) w.no_less in
    let order : equal (order_of old) (order_of new) ≡ true =
      ground (arith, more, less, w.in_order) in
    let orders = equal_sound (order_of old) (order_of new) order in
    same_pairs old new orders u (λ id i.
      let pinned = (is_pinned_iff new id).1 (subst (λ l. In id l) orders i) in
      (str_eq_iff _ _).0 (
        unchanged id pinned (
          (is_empty-keep (λ x. is_pinned new x && rehashed old new x) (order_of old)).0 w.kept id
            i)))
  where
    unchanged :
        (id : Str)
        → is_pinned new id ≡ true
        → (is_pinned new id && rehashed old new id) ≡ false
        → str_eq (or_blank (hash_of old id)) (or_blank (hash_of new id)) ≡ true
    unchanged id p h = not-false _ (rw p at h)

-- A pin differs from one with the same nodes and open questions in nothing.
pub unmoved_self :
    (name : Str) (before after : Pin) (old : List (Str × Str))
    → before.count ≡ after.count
    → SameMembers before.unresolved after.unresolved
    → is_empty_delta (delta_of name before after old old) ≡ true
unfolding is_empty_delta delta_of both_blank moved
unmoved_self name before after old c m =
    let gone =
      (is_empty-keep (λ id. not (is_pinned old id)) (order_of old)).1
        (λ id i. rw ((is_pinned_iff old id).1 i)) in
    let held =
      (is_empty-keep (λ id. is_pinned old id && rehashed old old id) (order_of old)).1
        (λ id i. rw (rehashed_self old id) (and-false (is_pinned old id))) in
    let answered =
      (is_empty-keep (λ q. not (has after.unresolved q)) before.unresolved).1
        (λ q i. rw ((has_iff after.unresolved q).1 ((m q).0 i))) in
    let opened =
      (is_empty-keep (λ q. not (has before.unresolved q)) after.unresolved).1
        (λ q i. rw ((has_iff before.unresolved q).1 ((m q).1 i))) in
    let sorted =
      is_empty-sort_strings_of (keep (λ id. not (is_pinned old id)) (order_of old)) gone in
    ground (
      arith,
      gone,
      held,
      answered,
      opened,
      sorted,
      (==_iff before.count after.count).1 c,
      equal_refl (order_of old),
      str_eq_refl (first (order_of old)),
      str_eq_refl (last (order_of old)),
    )

-- The difference of two pins, the first of which holds each node once, is empty exactly when they
-- have the same count, the same nodes with the same hashes in the same order, and the same open
-- questions.
pub diff_pins-empty_exact :
    (name : Str) (before after : Pin)
    → NoRepeat (order_of (split_pin before.nodes))
    → (is_empty_delta (diff_pins name before after) ≡ true) ↔ (
        (before.count ≡ after.count)
        × (split_pin before.nodes ≡ split_pin after.nodes)
        × SameMembers before.unresolved after.unresolved)
unfolding diff_pins
diff_pins-empty_exact name before after u = (
  λ h.
      let w = unmoved name before after (split_pin before.nodes) (split_pin after.nodes) h in
      (
        w.counted,
        same_nodes before after (split_pin before.nodes) (split_pin after.nodes) u w,
        λ q. (
          filter_same before.unresolved after.unresolved w.answered q,
          filter_same after.unresolved before.unresolved w.opened q,
        ),
      ),
  λ w.
      subst (λ new. is_empty_delta (delta_of name before after (split_pin before.nodes) new) ≡ true)
        w.1 (unmoved_self name before after (split_pin before.nodes) w.0 w.2),
)
