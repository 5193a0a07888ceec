-- ===== src/Model/Records.antt =====
-- The records Alias, Source, Node and Edge of node.go. A Go string is `Str`, with the empty string
-- for a field that is not authored; a map[string]string is a list of pairs; a float64 is its bits.
use kgraph.Base.{Str, ℕ, Bool, List, Option}
use kgraph.Model.Vocabulary.{Kind, Status, Needs, Precision, EdgeType}

-- A name that a node is known by, in force on the half-open interval [starts, until).
pub record Alias : Type 0 where
  pub name : Str
  pub starts : Str
  pub until : Str

pub record Source : Type 0 where
  pub form : Str
  pub class : Str
  pub speaker : Str
  pub medium : Str
  pub recorded : Bool
  pub doc_path : Str
  pub doc_hash : Str
  pub anchor : Str
  pub premises : List Str

pub record Node : Type 0 where
  pub id : Str
  pub cid : Str
  pub kind : Kind
  pub body : Str
  pub status : Status
  pub owner : Str
  pub valid_from : Str
  pub valid_until : Str
  pub at : Str
  pub occ_from : Str
  pub occ_to : Str
  pub at_expr : Str
  pub precision : Precision
  pub while_node : Str
  pub value : ℕ
  pub has_value : Bool
  pub value_expr : Str
  pub unit : Str
  pub group_expr : Str
  pub title : Str
  pub ordered : Bool
  pub options : List Str
  pub exhaustive : Bool
  pub underdetermined : Str
  pub same_as : Str
  pub needs : Needs
  pub aliases : List Alias
  pub is : List Str
  pub bag : List (Str × Str)
  pub reason : Str
  pub supersedes_reason : Str
  pub provenance : Option Source
  pub file : Str
  pub line : ℕ

pub record Edge : Type 0 where
  pub id : Str
  pub cid : Str
  pub src : Str
  pub dst : Str
  pub type : EdgeType
  pub valid_from : Str
  pub valid_until : Str
  pub while_node : Str
  pub file : Str
  pub line : ℕ
  pub bag : List (Str × Str)
  pub because : Str
  pub one_way : Bool

-- One parsed file.
pub record Doc : Type 0 where
  pub path : Str
  pub nodes : List Node
  pub edges : List Edge
