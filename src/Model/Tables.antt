-- ===== src/Model/Tables.antt =====
-- The tables of node.go that map an authored key to the kind or to the edge that it declares.
use kgraph.Base.{Str, lit, str_eq, Bool, List, [], ◌∷◌}
use kgraph.Model.Vocabulary.{
  Status, asserted, proposed, still_open, resolved, done, withdrawn, tested_false, Needs, evidence,
  decision, reply, analysis, Precision, day, month, year, approx, Kind, claim, question, group,
  entity, event, action, source, EdgeType, causes, implies, requires, prohibits, supports,
  contradicts, answers, supersedes, member_of, about, attests, derived_from,
}

unfoldable pub body_keys : List (Str × Kind)
body_keys =
    (lit "claim", claim)
    ∷ (lit "question", question)
    ∷ (lit "group", group)
    ∷ (lit "entity", entity)
    ∷ (lit "event", event)
    ∷ (lit "action", action)
    ∷ (lit "document", source)
    ∷ (lit "utterance", source)
    ∷ (lit "record", source)
    ∷ (lit "observation", source)
    ∷ (lit "inference", source)
    ∷ []

unfoldable pub forward_edge : List (Str × EdgeType)
forward_edge =
    (lit "causes", causes)
    ∷ (lit "implies", implies)
    ∷ (lit "requires", requires)
    ∷ (lit "prohibits", prohibits)
    ∷ (lit "supports", supports)
    ∷ (lit "contradicts", contradicts)
    ∷ (lit "answers", answers)
    ∷ (lit "supersedes", supersedes)
    ∷ (lit "member_of", member_of)
    ∷ (lit "about", about)
    ∷ (lit "attests", attests)
    ∷ (lit "derived_from", derived_from)
    ∷ []

unfoldable pub inverse_edge : List (Str × EdgeType)
inverse_edge =
    (lit "attested_by", attests)
    ∷ (lit "answered_by", answers)
    ∷ (lit "undercut_by", contradicts)
    ∷ (lit "members", member_of)
    ∷ (lit "options", answers)
    ∷ []

unfoldable pub one_way_edge : Str → Bool
one_way_edge key = str_eq key (lit "undercut_by")

-- The Go string of a kind.
unfoldable pub kind_name : Kind → Str
kind_name claim = lit "claim"
kind_name question = lit "question"
kind_name group = lit "group"
kind_name entity = lit "entity"
kind_name event = lit "event"
kind_name action = lit "action"
kind_name source = lit "source"

unfoldable pub status_name : Status → Str
status_name Status.unset = []
status_name asserted = lit "asserted"
status_name proposed = lit "proposed"
status_name still_open = lit "open"
status_name resolved = lit "resolved"
status_name done = lit "done"
status_name withdrawn = lit "withdrawn"
status_name tested_false = lit "false"

unfoldable pub needs_name : Needs → Str
needs_name Needs.unset = []
needs_name evidence = lit "evidence"
needs_name decision = lit "decision"
needs_name reply = lit "reply"
needs_name analysis = lit "analysis"

unfoldable pub precision_name : Precision → Str
precision_name Precision.unset = []
precision_name day = lit "day"
precision_name month = lit "month"
precision_name year = lit "year"
precision_name approx = lit "approx"
