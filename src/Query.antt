-- ===== src/Query.antt =====
-- query.go: the tree of a query. Kinds, operators and fields stay strings, since a tree may also come
-- as JSON with any text in their place.
pub mod Lex
pub mod Parse
pub mod Descent
pub mod Total
pub mod Ends
pub mod Field
pub mod Eval
pub mod Denote
pub mod Shape
pub mod Panics
pub mod Check
use kgraph.Base.{Str, Bool, List, Option}
use kgraph.Closure.{Hop}

pub record Temporal : Type 0 where
  pub now : Bool
  pub starts : Str
  pub ends : Str

pub record SortKey : Type 0 where
  pub key : Str
  pub desc : Bool

pub record Pred : Type 0 where
  pub key : Str
  pub op : Str
  pub vals : List Str

pub record Atom : Type 0 where
  pub kinds : List Str
  pub id : Str
  pub preds : List Pred
  pub text : Str

pub record Pattern : Type 0 where
  pub atoms : List Atom
  pub hops : List Hop
  pub at : Option Temporal
  pub sort : List SortKey

-- Union, Inter, Not, Ref, Pattern and Scoped.
mutual
  pub data Query : Type 0 where
    union_of : Queries → Query
    inter_of : Queries → Query
    complement : Query → Query
    named : Str → Query
    matching : Pattern → Query
    scoped : Query → Option Temporal → List SortKey → Query

  pub data Queries : Type 0 where
    no_queries : Queries
    more : Query → Queries → Queries
