-- ===== src/SemHash/Covers.antt =====
-- The fields of a node in the text that SemHash of node.go hashes.
use kgraph.Base.{
  Str, ℕ, zero, suc, arith, ◌≡◌, refl, ap, inl, inr, Bool, true, false, if◌then◌else◌, is_empty,
  List, [], ◌∷◌, ◌++◌, In, length,
}
use kgraph.Model.{Node, Edge}
use kgraph.SemHash.Names.{
  kind_name-inj, kind_name-clean, status_name-inj, status_name-clean, precision_name-inj,
  precision_name-clean, needs_name-inj, needs_name-clean, flags_text-inj, flags_text-clean,
}
use kgraph.SemHash.{ended, field_texts, list_texts, committed}

-- No text has a zero byte.
abbrev pub AllClean : List Str → Type 0
AllClean [] = Unit
AllClean (p ∷ ps) = (¬ In 0 p) × AllClean ps

ended-inj : (p q s t : Str) → ¬ In 0 p → ¬ In 0 q → p ++ (0 ∷ s) ≡ q ++ (0 ∷ t) → (p ≡ q) × (s ≡ t)
ended-inj [] [] s t a b h = (refl, cc h)
ended-inj [] (d ∷ q) s t a b h = absurd (b (inl (cc h)))
ended-inj (c ∷ p) [] s t a b h = absurd (a (inl (cc h)))
ended-inj (c ∷ p) (d ∷ q) s t a b h =
    let r = ended-inj p q s t (λ i. a (inr i)) (λ i. b (inr i)) (cc h) in (cc (h, r.0), r.1)

ended-prefix :
    (ps qs rs ss : List Str)
    → length ps ≡ length qs
    → AllClean ps
    → AllClean qs
    → ended (ps ++ rs) ≡ ended (qs ++ ss)
    → ps ≡ qs
unfolding ended
ended-prefix [] [] rs ss l a b h = refl
ended-prefix [] (q ∷ qs) rs ss l a b h = absurd (omega (arith, l))
ended-prefix (p ∷ ps) [] rs ss l a b h = absurd (omega (arith, l))
ended-prefix (p ∷ ps) (q ∷ qs) rs ss l a b h =
    let r = ended-inj p q (ended (ps ++ rs)) (ended (qs ++ ss)) a.0 b.0 h in
    let rest = ended-prefix ps qs rs ss (omega (arith, l)) a.1 b.1 r.1 in cc (r.0, rest)

field_texts-length :
    (shown : ℕ → Str) (n m : Node) → length (field_texts shown n) ≡ length (field_texts shown m)
unfolding field_texts
field_texts-length shown n m = refl

-- The texts of a node that its author writes.
abbrev pub authored_texts : Node → List Str
authored_texts n =
    n.body ∷ n.owner ∷ n.valid_from ∷ n.valid_until ∷ n.at ∷ n.occ_from ∷ n.occ_to ∷ n.at_expr
    ∷ n.while_node ∷ n.group_expr ∷ n.value_expr ∷ n.unit ∷ n.underdetermined ∷ []

-- Two nodes agree in what a rendered fact commits to of their own fields.
pub record SameFacts (shown : ℕ → Str) (n m : Node) : Type 0 where
  pub same_texts : authored_texts n ≡ authored_texts m
  pub same_kind : n.kind ≡ m.kind
  pub same_status : n.status ≡ m.status
  pub same_precision : n.precision ≡ m.precision
  pub same_needs : n.needs ≡ m.needs
  pub same_order : n.ordered ≡ m.ordered
  pub same_exhaustion : n.exhaustive ≡ m.exhaustive
  pub both_valued : n.has_value ≡ m.has_value
  pub same_value : n.has_value ≡ true → shown n.value ≡ shown m.value

nth : ℕ → List Str → Str
nth i [] = []
nth zero (p ∷ ps) = p
nth (suc i) (p ∷ ps) = nth i ps

value-inj :
    (shown : ℕ → Str) (b c : Bool) (v w : ℕ)
    → ((x : ℕ) → is_empty (shown x) ≡ false)
    → (if b then shown v else []) ≡ (if c then shown w else [])
    → (b ≡ c) × (b ≡ true → shown v ≡ shown w)
value-inj shown true true v w k h = (refl, λ e. h)
value-inj shown false false v w k h = (refl, λ e. cc e)
value-inj shown true false v w k h = cc (k v, h)
value-inj shown false true v w k h = cc (k w, h)

-- The verb %g writes something, and no zero byte.
abbrev pub ShowsValues : (ℕ → Str) → Type 0
ShowsValues shown = (x : ℕ) → (is_empty (shown x) ≡ false) × (¬ In 0 (shown x))

value-clean :
    (shown : ℕ → Str) (b : Bool) (v : ℕ) → ShowsValues shown → ¬ In 0 (if b then shown v else [])
value-clean shown true v k = (k v).1
value-clean shown false v k = λ i. i

field_texts-AllClean :
    (shown : ℕ → Str) (n : Node)
    → ShowsValues shown
    → AllClean (authored_texts n)
    → AllClean (field_texts shown n)
unfolding field_texts
field_texts-AllClean shown n k
      (t0, (t1, (t2, (t3, (t4, (t5, (t6, (t7, (t8, (t9, (t10, (t11, (t12, _))))))))))))) =
    (
      kind_name-clean n.kind,
      (
        t0,
        (
          status_name-clean n.status,
          (
            t1,
            (
              t2,
              (
                t3,
                (
                  t4,
                  (
                    t5,
                    (
                      t6,
                      (
                        t7,
                        (
                          precision_name-clean n.precision,
                          (
                            t8,
                            (
                              t9,
                              (
                                t10,
                                (
                                  t11,
                                  (
                                    value-clean shown n.has_value n.value k,
                                    (
                                      flags_text-clean (n.ordered, n.exhaustive),
                                      (needs_name-clean n.needs, (t12, tt)),
                                    ),
                                  ),
                                ),
                              ),
                            ),
                          ),
                        ),
                      ),
                    ),
                  ),
                ),
              ),
            ),
          ),
        ),
      ),
    )

fields-SameFacts :
    (shown : ℕ → Str) (n m : Node)
    → ShowsValues shown
    → field_texts shown n ≡ field_texts shown m
    → SameFacts shown n m
unfolding field_texts nth
fields-SameFacts shown n m k h =
    let at_place = λ (i : ℕ). ap (nth i) h in
    let flags = flags_text-inj (n.ordered, n.exhaustive) (m.ordered, m.exhaustive) (at_place 16) in
    let value =
      value-inj shown n.has_value m.has_value n.value m.value (λ x. (k x).0) (at_place 15) in
    record {
      same_texts = λ i.
          at_place 1 i
          ∷ at_place 3 i
          ∷ at_place 4 i
          ∷ at_place 5 i
          ∷ at_place 6 i
          ∷ at_place 7 i
          ∷ at_place 8 i
          ∷ at_place 9 i
          ∷ at_place 11 i
          ∷ at_place 12 i
          ∷ at_place 13 i
          ∷ at_place 14 i
          ∷ at_place 18 i
          ∷ [];
      same_kind = kind_name-inj n.kind m.kind (at_place 0);
      same_status = status_name-inj n.status m.status (at_place 2);
      same_precision = precision_name-inj n.precision m.precision (at_place 10);
      same_needs = needs_name-inj n.needs m.needs (at_place 17);
      same_order = ap (λ (p : Bool × Bool). p.0) flags;
      same_exhaustion = ap (λ (p : Bool × Bool). p.1) flags;
      both_valued = value.0;
      same_value = value.1;
    }

-- If the texts that SemHash hashes for two nodes agree, with whatever aliases, sources and edges, then
-- the nodes agree in their kind, status, precision and needs, in both flags, in whether they have a
-- value and how it reads, and in the thirteen texts that an author writes, from the body to
-- underdetermined. The texts of both nodes have no zero byte, and the verb for a value writes
-- something and no zero byte.
pub committed-SameFacts :
    (shown : ℕ → Str) (n m : Node) (es fs : List Edge)
    → ShowsValues shown
    → AllClean (authored_texts n)
    → AllClean (authored_texts m)
    → committed shown n es ≡ committed shown m fs
    → SameFacts shown n m
unfolding committed
committed-SameFacts shown n m es fs k a b h = fields-SameFacts shown n m k (
    ended-prefix (field_texts shown n) (field_texts shown m) (list_texts shown n es)
      (list_texts shown m fs) (field_texts-length shown n m) (field_texts-AllClean shown n k a)
      (field_texts-AllClean shown m k b) h)
