-- ===== src/Facts/Assigned.antt =====
-- assignScalar of kfacts.go: the kind, the id and the source record of a node under it.
use kgraph.Base.{
  Str, lit, arith, ◌≡◌, sym, ◌∙◌, subst, ◌≢◌, inl, inr, Bool, true, false, Option, none, some,
  str_eq, Option-cases, if◌then◌else◌,
}
use kgraph.Model.{Node, Source, Kind, source}
use kgraph.Time.{Floats}
use kgraph.Dialect.{Dialect}
use kgraph.Facts.{Yaml, text_at}
use kgraph.Facts.Scalar.{assign_at, assign_value, assign_text, assign_checked, assign_scalar}

-- A source has its source record.
abbrev pub HasRecord : Kind → Option Source → Type 0
HasRecord kind provenance = kind ≡ source → provenance ≢ none

-- `m` is `n` after a field with the key.
abbrev pub Assigned : Str → Node → Node → Type 0
Assigned key n m =
    (m.kind ≡ n.kind)
    × (HasRecord n.kind n.provenance → HasRecord m.kind m.provenance)
    × (str_eq key (lit "id") ≡ false → m.id ≡ n.id)

pub if_both {ℓ κ} :
    {A : Type ℓ} (P : A → Type κ) (b : Bool) {x y : A} → P x → P y → P (if b then x else y)
if_both P true p q = p
if_both P false p q = q

abbrev AssignedText : Str → Node → Option Node → Type 0
AssignedText key n none = Unit
AssignedText key n (some m) = Assigned key n m

module _ (fl : Floats) (dl : Dialect) where
  assign_at-Assigned : (n : Node) (key s : Str) → Assigned key n (assign_at fl dl n s)
  unfolding assign_at
  assign_at-Assigned n key s = ground arith

  assign_value-Assigned : (n : Node) (key s : Str) → Assigned key n (assign_value fl dl n s).0
  unfolding assign_value
  assign_value-Assigned n key s = ground arith

  assign_text-Assigned :
      (n : Node) (key : Str) (v : Yaml) → AssignedText key n (assign_text fl dl n key v)
  unfolding assign_text
  assign_text-Assigned n key v = ground (arith, assign_at-Assigned n key (text_at v))

  assign_checked-kind :
      (n : Node) (key : Str) (v : Yaml) → (assign_checked fl dl n key v).0.kind ≡ n.kind
  unfolding assign_checked assign_value
  assign_checked-kind n key v = ground arith

  assign_checked-id : (n : Node) (key : Str) (v : Yaml) → (assign_checked fl dl n key v).0.id ≡ n.id
  unfolding assign_checked assign_value
  assign_checked-id n key v = ground arith

  assign_checked-provenance :
      (n : Node) (key : Str) (v : Yaml)
      → n.provenance ≢ none
      → (assign_checked fl dl n key v).0.provenance ≢ none
  unfolding assign_checked assign_value
  assign_checked-provenance n key v h = ground arith

  assign_checked-Assigned :
      (n : Node) (key : Str) (v : Yaml) → Assigned key n (assign_checked fl dl n key v).0
  assign_checked-Assigned n key v = (
    assign_checked-kind n key v,
    λ h e. assign_checked-provenance n key v (h (sym (assign_checked-kind n key v) ∙ e)),
    λ e. assign_checked-id n key v,
  )

  pub assign_scalar-Assigned :
      (n : Node) (key : Str) (v : Yaml) → Assigned key n (assign_scalar fl dl n key v).0
  unfolding assign_scalar
  assign_scalar-Assigned n key v = elim (Option-cases (assign_text fl dl n key v)) [
    | inl e ↦ rw (e, assign_scalar) (assign_checked-Assigned n key v)
    | inr (m, e) ↦
        rw (e, assign_scalar) (subst (AssignedText key n) e (assign_text-Assigned n key v))
  ]
