-- ===== src/SemHash.antt =====
-- SemHash of node.go: what a node commits to, as a text and as its hash. `digest` is the first sixteen
-- hexadecimal digits of SHA-256, `shown` the verb %g of fmt for a float64.
mod Names
pub mod Covers
pub mod Unordered
use kgraph.Base.{
  Str, lit, ℕ, Bool, true, false, if◌then◌else◌, Option, none, some, List, [], ◌∷◌, ◌++◌, map,
  is_empty, sort_strings,
}
use kgraph.Model.{Alias, Source, Node, Edge, kind_name, status_name, needs_name, precision_name}
use kgraph.Facts.Edges.{type_name}

-- The verb %t.
unfoldable pub shown_flag : Bool → Str
shown_flag true = lit "true"
shown_flag false = lit "false"

-- The closure w: each text, ended by a zero byte.
unfoldable pub ended : List Str → Str
ended [] = []
ended (p ∷ ps) = p ++ (0 ∷ ended ps)

unfoldable pub alias_text : Alias → Str
alias_text a = a.name ++ (0 ∷ (a.starts ++ (0 ∷ a.until)))

unfoldable pub edge_text : Edge → Str
unfolding type_name
edge_text e =
    type_name e.type
    ++ (0
        ∷ (e.src
            ++ (0
                ∷ (e.dst
                    ++ (0
                        ∷ (e.valid_from
                            ++ (0
                                ∷ (e.valid_until
                                    ++ (0
                                        ∷ (e.while_node
                                            ++ ((if e.one_way then 0 ∷ lit "1way" else [])
                                                ++ (if is_empty e.because
                                                    then []
                                                    else 0
                                                      ∷ (lit "because=" ++ e.because)))))))))))))

unfoldable pub source_texts : Option Source → List Str
unfolding shown_flag
source_texts none = []
source_texts (some s) =
    s.form
    ∷ s.class
    ∷ s.speaker
    ∷ s.medium
    ∷ s.doc_path
    ∷ s.anchor
    ∷ shown_flag s.recorded
    ∷ sort_strings s.premises

module _ (shown : ℕ → Str) where
  -- The fields of every node.
  unfoldable pub field_texts : Node → List Str
  unfolding shown_flag
  field_texts n =
      kind_name n.kind
      ∷ n.body
      ∷ status_name n.status
      ∷ n.owner
      ∷ n.valid_from
      ∷ n.valid_until
      ∷ n.at
      ∷ n.occ_from
      ∷ n.occ_to
      ∷ n.at_expr
      ∷ precision_name n.precision
      ∷ n.while_node
      ∷ n.group_expr
      ∷ n.value_expr
      ∷ n.unit
      ∷ (if n.has_value then shown n.value else [])
      ∷ (shown_flag n.ordered ++ (124 ∷ shown_flag n.exhaustive))
      ∷ needs_name n.needs
      ∷ n.underdetermined
      ∷ []

  unfoldable pub list_texts : Node → List Edge → List Str
  unfolding alias_text edge_text source_texts
  list_texts n incident =
      sort_strings (map alias_text n.aliases)
      ++ (source_texts n.provenance ++ sort_strings (map edge_text incident))

  -- What is written into the hash.
  unfoldable pub committed : Node → List Edge → Str
  unfolding field_texts list_texts ended
  committed n incident = ended (field_texts n ++ list_texts n incident)

  -- SemHash
  unfoldable pub sem_hash : (Str → Str) → Node → List Edge → Str
  unfolding committed
  sem_hash digest n incident = lit "sha256:" ++ digest (committed n incident)
