-- ===== src/Highwater.antt =====
-- highwater.go: the record of the largest graph that was loaded. `none` is a record that is not
-- there yet, which ReadHighWater returns as the zero value; a failed write is left out.
use kgraph.Base.{
  Str, ℕ, ◌*◌, ◌≤◌, ◌<◌, ◌≡◌, inl, inr, if◌then◌else◌, List, [], ◌∷◌, arith, In, ◌≢◌, length, ltb,
  leb, ◌==◌, ap,
}
use kgraph.Graph.{Graph}

pub record HighWater : Type 0 where
  pub nodes : ℕ
  pub edges : ℕ
  pub at : Str

-- What CheckHighWater reports: nothing, that everything is gone, or that more than half is.
pub data Shrinkage : Type 0 where
  no_loss collapsed shrank : Shrinkage

unfoldable pub never_recorded : HighWater
never_recorded = record { nodes = 0; edges = 0; at = [] }

-- WriteHighWater: the record that the file holds after it.
unfoldable pub write_high_water : HighWater → Graph → Str → HighWater
write_high_water hw g at =
    if leb (length g.nodes) hw.nodes
    then hw
    else record { nodes = length g.nodes; edges = length g.edges; at = at }

unfoldable pub check_high_water : HighWater → Graph → Shrinkage
check_high_water hw g =
    if hw.nodes == 0
    then no_loss
    else if length g.nodes == 0
    then collapsed
    else if ltb (length g.nodes * 2) hw.nodes
    then shrank
    else no_loss

-- The record after a run of loads, each with its date.
unfoldable pub write_all : HighWater → List (Graph × Str) → HighWater
unfolding write_high_water
write_all hw [] = hw
write_all hw ((g, at) ∷ loads) = write_all (write_high_water hw g at) loads

write-le : (hw : HighWater) (g : Graph) (at : Str) → hw.nodes ≤ (write_high_water hw g at).nodes
unfolding write_high_water
write-le hw g at = ground arith

write_all-le : (hw : HighWater) (loads : List (Graph × Str)) → hw.nodes ≤ (write_all hw loads).nodes
unfolding write_all
write_all-le hw [] = omega arith
write_all-le hw ((g, at) ∷ loads) =
    omega (arith, write-le hw g at, write_all-le (write_high_water hw g at) loads)

write-covers :
    (hw : HighWater) (g : Graph) (at : Str) → length g.nodes ≤ (write_high_water hw g at).nodes
unfolding write_high_water
write-covers hw g at = ground arith

-- The record never falls below a graph that it was written for, however the loads went on.
pub write_all-covers :
    (hw : HighWater) (loads : List (Graph × Str)) (g : Graph) (at : Str)
    → In (g, at) loads
    → length g.nodes ≤ (write_all hw loads).nodes
unfolding write_all
write_all-covers hw [] g at i = absurd i
write_all-covers hw ((h, day) ∷ loads) g at (inl e) =
    let same : length g.nodes ≡ length h.nodes = ap (λ (l : Graph × Str). length l.0.nodes) e in
    omega (arith, same, write-covers hw h day, write_all-le (write_high_water hw h day) loads)
write_all-covers hw ((h, day) ∷ loads) g at (inr i) =
    write_all-covers (write_high_water hw h day) loads g at i

-- A graph less than half as large as one that was recorded is never passed over, whatever loads came
-- before and after: it is reported as a collapse if it is empty, and as shrunk otherwise.
pub check-write_all :
    (hw : HighWater) (loads : List (Graph × Str)) (g now : Graph) (at : Str)
    → In (g, at) loads
    → length now.nodes * 2 < length g.nodes
    → ((length now.nodes ≡ 0) → check_high_water (write_all hw loads) now ≡ collapsed)
      × ((length now.nodes ≢ 0) → check_high_water (write_all hw loads) now ≡ shrank)
unfolding check_high_water
check-write_all hw loads g now at i h =
    let k = write_all-covers hw loads g at i in
    (λ e. ground (arith, k, h, e), λ n. ground (arith, k, h, n))
