-- ===== src/Lib.antt =====
-- kgraph: a knowledge graph of claims, questions, groups, events and sources, evaluated at a date.
--
-- The program reads fact files into documents of nodes and edges, assembles them into one graph, and
-- answers questions of that graph: whether a node is satisfied, what an open question taints, where a
-- hop of a query leads, and whether the evidence for a claim points both ways. The paths below are
-- those of the repository; all code is in its root package.
--
--   Base           texts, lists, sorting and maps that the other files share. A Go string is a list of
--                  bytes. sort.Strings and sort.Slice are an insertion sort; a Go map that is ranged
--                  over is a list of pairs, whose order stands for the order in which Go reads it.
--   Model          node.go: Kind, Status, Needs, Precision, EdgeType, the tables of keys, and the
--                  records Alias, Source, Node, Edge and Doc.
--   Time           compare, validAt, dateFloor, dateCeil and dateOverlapsWindow of eval.go, Alias.Holds
--                  of node.go, overlaps of graph.go, windowsOverlap of conflict.go.
--   Graph          graph.go: the maps of the graph and Lookup. Graph.Build is buildGraph up to the
--                  checks, Graph.Merge is merge, Graph.Dedupe is dedupeEdges, Graph.Refs is checkRefs
--                  and Graph.Resolve is ResolveRef.
--   Satisfy        satisfied, groupStat, membersAt and edgeLive of eval.go; Satisfy.Expr is
--                  ValidGroupExpr with the rules that groupStat applies.
--   Closure        hopTargets of eval.go.
--   Taint          Taint and TaintedSet of taint.go.
--   Dialect        dialect.go: the vocabularies legal and engineering and their accessors;
--                  Dialect.Rules is LevelOf, ApplyRules and withRules.
--   Tension        conflict.go: conflict, impeachment and tension.
--   Induced        Induced of conflict.go: the bounded subgraph around a result, on ids.
--   Highwater      highwater.go: the record of the largest graph, and its check.
--   Query          query.go: the tree of a query. Query.Lex is the lexer, Query.Parse and
--                  Query.Descent the recursive-descent parser; Query.Field is field, matchAtom and
--                  matchPred of eval.go, Query.Eval is Eval with evalPattern, walk and sortIDs, and
--                  Query.Denote the set of ids that a query denotes; Query.Check is ValidateQueryIn.
--   Values         resolveValue, resolveAt, ParseOffset and splitExpr of eval.go: the number and the
--                  date of a node, which other nodes may settle.
--   Pins           the pin of declared.go and DiffPins of diff.go.
--   Standing       standing.go: Ask, Acknowledge, pinOf, evalCached and Invalidate, with citedSources
--                  of conflict.go.
--   Sources        ReadLock and WriteLock of sources.go.
--   Attest         attest.go: the verdicts on facts, AppendAttestation and ReadAttestations, Supports.
--   Accepted       accepted.go: Partition, Unhonoured, findingKey and AppendAccepted.
--   Quote          nearMiss, rarestWords, anchorOffsets and wordRatio of nearquote.go, on lists of words.
--   Phonetic       editDistance of phonetic.go, with the recursive distance and the edits of a text;
--                  Phonetic.Names is soundsLike and soundsAlike, with nameFields and nameKeys.
--   Facts          kfacts.go: the reader of fact files. Facts.Edges is isEdgeEntry and parseEdge,
--                  Facts.Scalar assignScalar, Facts.Subtypes parseIs, governs and claimants,
--                  Facts.Entry the loop of parseNode, Facts.Declared what follows it, with CID and
--                  NormalizeBody of node.go, Facts.File parseEntries, ParseEntries and fencedBlocks.
--   SemHash        SemHash of node.go: what a node commits to, as the text that is hashed.
--   Tests          sample corpora and the theorems applied to them.
--
-- Errors and diagnostics are values: an edge that is left out or a reference that dangles is an entry
-- of a list, without the text of the message. A nil node is `none`, and an unset string is empty. An
-- index out of range, on which the program panics, is a result of its own (`panic`, `crashed`).
--
-- Recursion without a bound takes fuel. The measure is the number of nodes that were not seen
-- (Graph.Unseen) for satisfied, taint, the values and dates of nodes and the chain of same_as; a
-- starred hop starts with as many rounds as there are steps from the start and from every node; the
-- parser starts with a multiple of the number of tokens, and named queries with their number. `none`,
-- `out_of_fuel` or `unfinished` is the end of the fuel.
--
-- The code of other packages is a parameter. `Floats` is strconv.ParseFloat with the order of
-- float64, whose laws are those of IEEE 754, `Numbers` the arithmetic of float64 and `Calendar`
-- the days of the package time; `Ratios` is the float64 quotient of wordRatio and its order.
-- `lower` is strings.ToLower, `hash` SHA-256 of a text and `sem` the hashes of the nodes; `encode`
-- and `decode` are json.Marshal and json.Unmarshal. `unmarshal` is yaml.Unmarshal into a tree,
-- `digest` the first sixteen hexadecimal digits of SHA-256, and `shown` the verb %g of fmt. `live`,
-- in Closure, Taint and Tension, and `sat`, in Query and Standing, are the answers of edgeLive and of
-- Satisfied at the date of a question, where these return: at a date their recursion may have no end
-- (Satisfy.Endless). Satisfy has the recursion itself and Satisfy.Asked follows it to a depth;
-- Closure.Asked, Taint.Asked and Query.Eval.Answered ask it, and say where it answers.
--
-- Not modelled: the body similarity, the checks of buildGraph other than checkRefs (they only
-- report), the editing of fact files (write.go, repair.go), the reading and writing of standing
-- sets, the texts of diagnostics and those that say what changed, quoteWords with its Unicode tables,
-- the ranking of verdicts, the store, the search of a corpus, and the daemon with its interfaces.
-- strings.TrimSpace and strings.Fields know the ASCII spaces only, so they are those of Go where the
-- ends of a text, or its spaces, are ASCII. A source node without its source
-- record, on which the program would panic, has an empty class here.
pub mod Base
pub mod Model
pub mod Time
pub mod Graph
pub mod Satisfy
pub mod Closure
pub mod Taint
pub mod Dialect
pub mod Tension
pub mod Highwater
pub mod Pins
pub mod Standing
pub mod Sources
pub mod Attest
pub mod Accepted
pub mod Quote
pub mod Facts
pub mod SemHash
pub mod Induced
pub mod Phonetic
pub mod Values
pub mod Query
pub mod Tests
