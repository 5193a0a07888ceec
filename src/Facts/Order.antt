-- ===== src/Facts/Order.antt =====
-- assignScalar of kfacts.go under two orders of the keys of an entry.
use kgraph.Base.{
  Str, lit, arith, ◌≡◌, refl, true, false, none, some, is_empty, has_prefix, str_eq, str_eq_refl,
  length, find_key,
}
use kgraph.Model.{Node, Precision, month}
use kgraph.Time.{Floats}
use kgraph.Dialect.{Dialect}
use kgraph.Facts.{Yaml, text_at, self_same_as}
use kgraph.Facts.Scalar.{
  assign_scalar, assign_text, assign_checked, assign_at, infer_precision, precision_table,
}

other_id : (s t : Str) → is_empty s ≡ false → is_empty t ≡ true → str_eq s t ≡ false
unfolding str_eq
other_id s t h e = ground arith

module _ (fl : Floats) (dl : Dialect) (n : Node) where
  set_id : (v : Yaml) → assign_scalar fl dl n (lit "id") v ≡ (record n { id = text_at v }, none)
  unfolding assign_scalar assign_text str_eq
  set_id v = refl

  set_same_as :
      (v : Yaml)
      → str_eq (text_at v) n.id ≡ false
      → assign_scalar fl dl n (lit "same_as") v ≡ (record n { same_as = text_at v }, none)
  unfolding assign_scalar assign_text assign_checked str_eq
  set_same_as v h = rw (h, assign_scalar)

  refuse_same_as :
      (v : Yaml)
      → str_eq (text_at v) n.id ≡ true
      → assign_scalar fl dl n (lit "same_as") v ≡ (n, some self_same_as)
  unfolding assign_scalar assign_text assign_checked str_eq
  refuse_same_as v h = rw (h, assign_scalar)

  set_precision :
      (v : Yaml) (p : Precision)
      → find_key precision_table (text_at v) ≡ some p
      → assign_scalar fl dl n (lit "precision") v ≡ (record n { precision = p }, none)
  unfolding assign_scalar assign_text assign_checked str_eq
  set_precision v p h = rw (h, assign_scalar)

  set_at :
      (v : Yaml)
      → has_prefix (text_at v) (lit "=") ≡ false
      → length (text_at v) ≡ 7
      → assign_scalar fl dl n (lit "at") v ≡ (record n { at = text_at v; precision = month }, none)
  unfolding assign_scalar assign_text assign_at infer_precision str_eq
  set_at v h k = rw (h, assign_at, infer_precision, k)

module _ (fl : Floats) (dl : Dialect) (n : Node) (v : Yaml) where
  -- The check that same_as does not name the node itself is made against the id that is read so far.
  -- On a node whose id is to come, of two keys with one text: same_as below id is refused, and same_as
  -- above id is accepted, without a complaint at either key, and the node is the same as itself.
  pub assign_scalar-same_as :
      is_empty n.id ≡ true
      → is_empty (text_at v) ≡ false
      → ((assign_scalar fl dl (assign_scalar fl dl n (lit "id") v).0 (lit "same_as") v).1
          ≡ some self_same_as)
        × (let (m, c) = assign_scalar fl dl n (lit "same_as") v in
            let (l, d) = assign_scalar fl dl m (lit "id") v in
            (c ≡ none) × (d ≡ none) × (l.same_as ≡ l.id))
  assign_scalar-same_as e f = (
    rw (
      set_id fl dl n v,
      refuse_same_as fl dl (record n { id = text_at v }) v (str_eq_refl (text_at v)),
    ),
    rw
        (
          set_same_as fl dl n v (other_id (text_at v) n.id f e),
          set_id fl dl (record n { same_as = text_at v }) v,
        )
        (refl, refl, refl),
  )

  -- The precision that a date of seven characters gives, a month, and one that is authored: the key
  -- that stands below the other decides.
  pub assign_scalar-precision :
      (w : Yaml) (p : Precision)
      → has_prefix (text_at v) (lit "=") ≡ false
      → length (text_at v) ≡ 7
      → find_key precision_table (text_at w) ≡ some p
      → ((assign_scalar fl dl
            (assign_scalar fl dl n (lit "at") v).0
            (lit "precision")
            w).0.precision
          ≡ p)
        × ((assign_scalar fl dl
              (assign_scalar fl dl n (lit "precision") w).0
              (lit "at")
              v).0.precision
            ≡ month)
  assign_scalar-precision w p h k q = (
    rw (
      set_at fl dl n v h k,
      set_precision fl dl (record n { at = text_at v; precision = month }) w p q,
    ),
    rw (set_precision fl dl n w p q, set_at fl dl (record n { precision = p }) v h k),
  )
