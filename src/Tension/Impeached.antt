-- ===== src/Tension/Impeached.antt =====
-- impeachment of conflict.go: whose word is held against a claim, and which class stands above it.
use mathlib.Core.Option.{some_inj}
use kgraph.Base.{
  Str, ℕ, ◌<◌, ◌≤◌, ◌≡◌, ◌≢◌, refl, sym, ap, ◌∙◌, subst, inl, inr, Bool, true, false, not, ◌&&◌,
  Option, none, some, List, [], ◌∷◌, arith, In, str_eq, str_eq_iff, Bool-cases, Option-cases,
}
use kgraph.Model.{Node, Edge, Source, type_eq, contradicts, kind_eq, source}
use kgraph.Time.{Floats, windows_overlap}
use kgraph.Graph.{Graph, node_at}
use kgraph.Dialect.{legal, rank_of}
use kgraph.Tension.{
  Impeachment, impeach, impeachment, beaten_by, beat_edges, beat_all, rank_behind, weaker, weakest,
  verdict, vouches, challenges, contests, supported_claim, other_end,
}
use kgraph.Tension.Evidence.{
  Attests, SpeaksFor, Beats, IsSupport, AtMost, beaten_by-Beats, weaker-AtMost, weaker-IsSupport,
  weaker-stays, vouches-SpeaksFor, SpeaksFor-vouches, rank_behind-Attests,
}

record Reported (s : Source) (acc : List Str × ℕ × Str) (i : Impeachment) : Type 0 where
  pub of_speaker : i.speaker ≡ s.speaker
  pub of_class : i.class ≡ s.class
  pub beaten : i.beat ≡ acc.2
  pub some_beat : acc.0 ≢ []

verdict-Reported :
    (s : Source) (acc : List Str × ℕ × Str) (i : Impeachment)
    → verdict s acc ≡ some i
    → Reported s acc i
unfolding verdict
verdict-Reported s ([], beat, class) i h = cc h
verdict-Reported s (o ∷ os, beat, class) i h =
    let same = sym (some_inj.0 h) in
    record {
      of_speaker = ap (λ (x : Impeachment). x.speaker) same;
      of_class = ap (λ (x : Impeachment). x.class) same;
      beaten = ap (λ (x : Impeachment). x.beat) same;
      some_beat = λ e. cc e;
    }

module _ (fl : Floats) (live : Edge → Bool) (g : Graph) where
  weakest-IsSupport :
      (P : ℕ → Source → Type 0) (id : Str) (es : List Edge) (best : Option (ℕ × Source))
      → ((e : Edge) (r : ℕ) (s : Source)
          → In e es
          → vouches fl live g id e ≡ some s
          → rank_of legal s.class ≡ some r
          → P r s)
      → IsSupport P best
      → IsSupport P (weakest fl live g id es best)
  unfolding weakest
  weakest-IsSupport P id [] best k h = h
  weakest-IsSupport P id (e ∷ es) best k h =
      weakest-IsSupport P id es (weaker (vouches fl live g id e) best) (λ d r s i. k d r s (inr i))
        (weaker-IsSupport P (vouches fl live g id e) best (λ r s. k e r s (inl refl)) h)

  weakest-stays :
      (k : ℕ) (id : Str) (es : List Edge) (best : Option (ℕ × Source))
      → AtMost k best
      → AtMost k (weakest fl live g id es best)
  unfolding weakest
  weakest-stays k id [] best h = h
  weakest-stays k id (e ∷ es) best h =
      weakest-stays k id es (weaker (vouches fl live g id e) best)
        (weaker-stays k (vouches fl live g id e) best h)

  weakest-AtMost :
      (d : Edge) (t : Source) (k : ℕ) (id : Str) (es : List Edge) (best : Option (ℕ × Source))
      → In d es
      → vouches fl live g id d ≡ some t
      → rank_of legal t.class ≡ some k
      → AtMost k (weakest fl live g id es best)
  unfolding weakest
  weakest-AtMost d t k id [] best i v q = absurd i
  weakest-AtMost d t k id (e ∷ es) best (inl s) v q =
      weakest-stays k id es (weaker (vouches fl live g id e) best) (
        subst (λ o. AtMost k (weaker o best)) (sym v ∙ ap (λ x. vouches fl live g id x) s)
          (weaker-AtMost t k q best))
  weakest-AtMost d t k id (e ∷ es) best (inr i) v q =
      weakest-AtMost d t k id es (weaker (vouches fl live g id e) best) i v q

  beat_edges-Beats :
      (P : Str → ℕ → Type 0) (best : ℕ) (other : Str) (es : List Edge) (acc : List Str × ℕ × Str)
      → ((f : Edge) (r : ℕ) (c : Str)
          → In f es
          → rank_behind fl live g other f ≡ some (r, c)
          → P c r)
      → Beats P best acc
      → Beats P best (beat_edges fl live g best other es acc)
  unfolding beat_edges
  beat_edges-Beats P best other [] acc k h = h
  beat_edges-Beats P best other (f ∷ es) (by, beat, class) k h =
      let o = rank_behind fl live g other f in
      beat_edges-Beats P best other es (beaten_by best other o (by, beat, class))
        (λ d r c i. k d r c (inr i))
        (beaten_by-Beats P best other o by beat class (λ r c. k f r c (inl refl)) h)

  beat_all-Beats :
      (P : Str → ℕ → Type 0) (best : ℕ) (id : Str) (n : Node) (es : List Edge)
      (acc : List Str × ℕ × Str)
      → ((e f : Edge) (r : ℕ) (c : Str)
          → In e es
          → challenges fl live g id n e ≡ true
          → In f (g.incident (other_end id e))
          → rank_behind fl live g (other_end id e) f ≡ some (r, c)
          → P c r)
      → Beats P best acc
      → Beats P best (beat_all fl live g best id n es acc)
  unfolding beat_all
  beat_all-Beats P best id n [] acc k h = h
  beat_all-Beats P best id n (e ∷ es) acc k h =
      beat_all-Beats P best id n es _ (λ d f r c i. k d f r c (inr i))
        (elim (Bool-cases (challenges fl live g id n e)) [
          | inl q ↦ rw q (
              beat_edges-Beats P best (other_end id e) (g.incident (other_end id e)) acc
                (λ f r c. k e f r c (inl refl) q) h)
          | inr q ↦ rw q h
        ])

  -- A live contradiction of `id` with another supported claim in an overlapping window, which `id` does
  -- not undercut by it.
  pub record IsChallenge (id : Str) (n : Node) (c : Edge) : Type 0 where
    pub touching : In c (g.incident id)
    pub contradicting : type_eq c.type contradicts ≡ true
    pub lives : live c ≡ true
    pub elsewhere : other_end id c ≢ id
    pub not_undercut : (c.one_way && str_eq c.src id) ≡ false
    pub supported : supported_claim fl live g (other_end id c) ≡ true
    pub other : Node
    pub found : node_at g (other_end id c) ≡ some other
    pub overlapping : windows_overlap fl n other ≡ true

  challenges-IsChallenge :
      (id : Str) (n : Node) (c : Edge)
      → In c (g.incident id)
      → challenges fl live g id n c ≡ true
      → IsChallenge id n c
  unfolding challenges contests
  challenges-IsChallenge id n c i h =
      let there =
        last_of (type_eq c.type contradicts) (live c) (not (c.one_way && str_eq c.src id))
          (not (str_eq (other_end id c) id)) (contests fl live g n (other_end id c)) h in
      elim (Option-cases (node_at g (other_end id c))) [
        | inl p ↦ cc (rw (p, contests) at there)
        | inr (o, p) ↦
            let k = rw (p, contests) at there in
            record {
              touching = i;
              contradicting = ground arith;
              lives = ground arith;
              elsewhere = λ e. ground (arith, (str_eq_iff (other_end id c) id).1 e);
              not_undercut = ground arith;
              supported = ground arith;
              other = o;
              found = p;
              overlapping = ground arith;
            }
      ]
    where
      last_of : (a b c d e : Bool) → (a && b && c && d && e) ≡ true → e ≡ true
      last_of a b c d e k = ground arith

  -- Who speaks for a claim, from what class, and what stands above it.
  pub record IsOutranked (id : Str) (i : Impeachment) : Type 0 where
    pub fact : Node
    pub here : node_at g id ≡ some fact
    pub voice : Edge
    pub held : Source
    pub speaks : SpeaksFor fl live g id voice held
    pub speaker : i.speaker ≡ held.speaker
    pub class : i.class ≡ held.class
    pub low : ℕ
    pub ranked_low : rank_of legal i.class ≡ some low
    pub weakest :
        (d : Edge) (t : Source) (k : ℕ)
        → SpeaksFor fl live g id d t
        → rank_of legal t.class ≡ some k
        → low ≤ k
    pub against : Edge
    pub challenge : IsChallenge id fact against
    pub behind : Edge
    pub witness : Source
    pub listed : In behind (g.incident (other_end id against))
    pub attested : Attests fl live g (other_end id against) behind witness
    pub beat : i.beat ≡ witness.class
    pub high : ℕ
    pub ranked_high : rank_of legal i.beat ≡ some high
    pub outranks : low < high

  -- A ranked source that speaks for the claim.
  abbrev Voice : Str → ℕ → Source → Type 0
  Voice id r s = (e : Edge) × SpeaksFor fl live g id e s × (rank_of legal s.class ≡ some r)

  -- A source of a claim that challenges `id`, with its class and rank.
  abbrev Reply : Str → Node → Str → ℕ → Type 0
  Reply id n c r =
      (e : Edge) × (f : Edge) × (u : Source) × IsChallenge id n e
      × In f (g.incident (other_end id e))
      × Attests fl live g (other_end id e) f u
      × (u.class ≡ c)
      × (rank_of legal u.class ≡ some r)

  SpeaksFor-of :
      (id : Str) (e : Edge) (s : Source)
      → In e (g.incident id)
      → vouches fl live g id e ≡ some s
      → SpeaksFor fl live g id e s
  SpeaksFor-of id e s i v = let (a, u) = vouches-SpeaksFor fl live g id e s v in (i, a, u)

  Reply-of :
      (id : Str) (n : Node) (e f : Edge) (r : ℕ) (c : Str)
      → In e (g.incident id)
      → challenges fl live g id n e ≡ true
      → In f (g.incident (other_end id e))
      → rank_behind fl live g (other_end id e) f ≡ some (r, c)
      → Reply id n c r
  Reply-of id n e f r c i k j b =
      let (s, a, same, q) = rank_behind-Attests fl live g (other_end id e) f r c b in
      (e, f, s, challenges-IsChallenge id n e i k, j, a, same, q)

  impeach-IsOutranked :
      (id : Str) (n : Node) (i : Impeachment) (low : ℕ) (s : Source)
      → node_at g id ≡ some n
      → Voice id low s
      → ((d : Edge) (t : Source) (k : ℕ)
          → SpeaksFor fl live g id d t
          → rank_of legal t.class ≡ some k
          → low ≤ k)
      → impeach fl live g id n (some (low, s)) ≡ some i
      → IsOutranked id i
  unfolding impeach
  impeach-IsOutranked id n i low s p (voice, speaks, q) least h =
      let acc = beat_all fl live g low id n (g.incident id) ([], low, []) in
      let told = verdict-Reported s acc i h in
      elim (beat_all-Beats (Reply id n) low id n (g.incident id) ([], low, []) (Reply-of id n)
        (inl (refl, refl))) [
          | inl (none_beat, _) ↦ absurd (told.some_beat none_beat)
          | inr ((against, behind, u, challenge, j, a, same, r), above) ↦ record {
            fact = n;
            here = p;
            voice = voice;
            held = s;
            speaks = speaks;
            speaker = told.of_speaker;
            class = told.of_class;
            low = low;
            ranked_low = ap (rank_of legal) told.of_class ∙ q;
            weakest = least;
            against = against;
            challenge = challenge;
            behind = behind;
            witness = u;
            listed = j;
            attested = a;
            beat = told.beaten ∙ sym same;
            high = acc.1;
            ranked_high = ap (rank_of legal) (told.beaten ∙ sym same) ∙ r;
            outranks = above;
          }
        ]

  -- A claim that is reported as impeached is a node, and the report gives the speaker and the class of
  -- a source that speaks for it by a live edge, of the lowest rank among the sources that do and are
  -- ranked. The class reported against it is that of a source which attests, by a live edge, a claim
  -- that challenges it, and its rank is strictly higher.
  pub impeachment-IsOutranked :
      (id : Str) (i : Impeachment) → impeachment fl live g id ≡ some i → IsOutranked id i
  unfolding impeachment impeach
  impeachment-IsOutranked id i h = elim (Option-cases (node_at g id)) [
    | inl p ↦ cc (rw (p, impeachment) at h)
    | inr (n, p) ↦ elim (Bool-cases (kind_eq n.kind source)) [
      | inl k ↦ cc (rw (p, k, impeachment) at h)
      | inr k ↦
          held n p (weakest fl live g id (g.incident id) none)
            (weakest-IsSupport (Voice id) id (g.incident id) none
              (λ e r s i v q. (e, SpeaksFor-of id e s i v, q)) tt)
            (λ d t k (i, a, u) q.
              weakest-AtMost d t k id (g.incident id) none i
                (SpeaksFor-vouches fl live g id d t a u) q)
            (rw (p, k, impeachment) at h)
    ]
  ]
    where
      held :
          (n : Node)
          → node_at g id ≡ some n
          → (o : Option (ℕ × Source)) → IsSupport (Voice id) o
          → ((d : Edge) (t : Source) (k : ℕ)
              → SpeaksFor fl live g id d t
              → rank_of legal t.class ≡ some k
              → AtMost k o)
          → impeach fl live g id n o ≡ some i
          → IsOutranked id i
      held n p none v least h = cc h
      held n p (some (low, s)) v least h = impeach-IsOutranked id n i low s p v least h
