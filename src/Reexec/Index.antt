-- ===== src/Reexec/Index.antt =====
-- What `RecordedIndex::build` finds: each event by its id, and the emits of an actor.
use lichtung.Prelude.{
  String, List, [], ◌∷◌, ◌++◌, Option, none, some, true, ◌≡◌, refl, ◌≢◌, ◌⊎◌, inl, inr, arith, In,
  In-append, Bool-cases, leb, str_eq, eq_iff, sym, if◌then◌else◌, ap, ◌∙◌,
}
use lichtung.Map.{Map, lookup, insert, lookup-insert}
use lichtung.Log.{CausalEvent, emit, op_eq}
use lichtung.Reexec.{
  RecordedIndex, index_event, index_events, index_log, or_none, sort_events, sort_values,
  insert_event,
}

-- No two events of the log share an id.
abbrev pub DistinctIds : List CausalEvent → Type 0
DistinctIds log = (e f : CausalEvent) → In e log → In f log → e.id ≡ f.id → e ≡ f

some_inj : (x y : CausalEvent) → some x ≡ some y → x ≡ y
some_inj x y h = cc

lookup-by_id :
    (x : CausalEvent) (r : RecordedIndex) (k : String)
    → lookup k (index_event x r).by_id ≡ (if str_eq x.id k then some x else lookup k r.by_id)
unfolding index_event
lookup-by_id x r k = lookup-insert x.id k x r.by_id

by_id_missing :
    (log : List CausalEvent) (r : RecordedIndex) (k : String)
    → lookup k (index_events log r).by_id ≡ none
    → (lookup k r.by_id ≡ none) × ((e : CausalEvent) → In e log → e.id ≢ k)
unfolding index_events
by_id_missing [] r k h = (h, λ e m. absurd m)
by_id_missing (x ∷ log) r k h =
    let (p, q) = by_id_missing log (index_event x r) k h in
    elim (Bool-cases (str_eq x.id k)) [
      | inl same ↦ absurd (cc (rw same at (lookup-by_id x r k), p))
      | inr other ↦ (
        sym (rw other at (lookup-by_id x r k)) ∙ p,
        λ e m i. elim m [
          | inl here ↦
              absurd (cc ((eq_iff x.id k).1 (ap (λ (f : CausalEvent). f.id) (sym here) ∙ i), other))
          | inr later ↦ q e later i
        ],
      )
    ]

by_id_In :
    (log : List CausalEvent) (r : RecordedIndex) (k : String) (e : CausalEvent)
    → lookup k (index_events log r).by_id ≡ some e
    → (In e log × (e.id ≡ k)) ⊎ (lookup k r.by_id ≡ some e)
unfolding index_events
by_id_In [] r k e h = inr h
by_id_In (x ∷ log) r k e h = elim (by_id_In log (index_event x r) k e h) [
  | inl (m, i) ↦ inl (inr m, i)
  | inr l ↦ elim (Bool-cases (str_eq x.id k)) [
    | inl same ↦
        let found = rw same at (lookup-by_id x r k) in
        let here : e ≡ x = some_inj e x (sym l ∙ found) in
        inl (inl here, ap (λ (f : CausalEvent). f.id) here ∙ (eq_iff x.id k).0 same)
    | inr other ↦ inr (sym (rw other at (lookup-by_id x r k)) ∙ l)
  ]
]

In-insert_event :
    (w x : CausalEvent) (v : List CausalEvent) → In w (insert_event x v) → In w (x ∷ v)
unfolding insert_event
In-insert_event w x [] h = h
In-insert_event w x (f ∷ v) h = elim (Bool-cases (leb x.seq f.seq)) [
  | inl le ↦ rw le at h
  | inr gt ↦ ground (arith, In-insert_event w x v)
]

In-sort_events : (w : CausalEvent) (v : List CausalEvent) → In w (sort_events v) → In w v
unfolding sort_events
In-sort_events w [] h = h
In-sort_events w (x ∷ v) h = ground (arith, In-insert_event w x (sort_events v), In-sort_events w v)

lookup-sort_values :
    (a : String) (m : Map (List CausalEvent))
    → or_none (lookup a (sort_values m)) ≡ sort_events (or_none (lookup a m))
unfolding sort_values lookup sort_events
lookup-sort_values a [] = refl
lookup-sort_values a ((b, v) ∷ m) = ground (arith, lookup-sort_values a m)

In-emits :
    (log : List CausalEvent) (r : RecordedIndex) (a : String) (w : CausalEvent)
    → In w (or_none (lookup a (index_events log r).emits_by_actor))
    → (In w log × (w.actor ≡ a) × (op_eq w.op emit ≡ true))
      ⊎ In w (or_none (lookup a r.emits_by_actor))
unfolding index_events index_event
In-emits [] r a w h = inr h
In-emits (x ∷ log) r a w h = elim (In-emits log (index_event x r) a w h) [
  | inl (m, i, o) ↦ inl (inr m, i, o)
  | inr l ↦ elim (Bool-cases (op_eq x.op emit)) [
    | inr other ↦ inr (rw other at l)
    | inl emits ↦ added emits (rw emits at l)
  ]
]
  where
    v : List CausalEvent
    v = or_none (lookup x.actor r.emits_by_actor)

    added :
        op_eq x.op emit ≡ true
        → In w (or_none (lookup a (insert x.actor (v ++ x ∷ []) r.emits_by_actor)))
        → (In w (x ∷ log) × (w.actor ≡ a) × (op_eq w.op emit ≡ true))
          ⊎ In w (or_none (lookup a r.emits_by_actor))
    added emits l = elim (Bool-cases (str_eq x.actor a)) [
      | inr other ↦ inr (rw (lookup-insert x.actor a (v ++ x ∷ []) r.emits_by_actor, other) at l)
      | inl same ↦
          let l' = rw (lookup-insert x.actor a (v ++ x ∷ []) r.emits_by_actor, same) at l in
          elim ((In-append w v (x ∷ [])).0 l') [
            | inl old ↦ inr (rw ((eq_iff x.actor a).0 same) at old)
            | inr (inl here) ↦ rw here (inl (inl refl, (eq_iff x.actor a).0 same, emits))
            | inr (inr none_) ↦ absurd none_
          ]
    ]

pub by_id-In :
    (log : List CausalEvent) (k : String) (e : CausalEvent)
    → lookup k (index_log log).by_id ≡ some e
    → In e log × (e.id ≡ k)
unfolding index_log lookup
by_id-In log k e h = elim (by_id_In log (record { by_id = []; emits_by_actor = [] }) k e h) [
  | inl found ↦ found
  | inr none_ ↦ absurd (cc)
]

-- Where ids are distinct, the index finds each event by its id.
pub by_id_found :
    (log : List CausalEvent) (e : CausalEvent)
    → DistinctIds log
    → In e log
    → lookup e.id (index_log log).by_id ≡ some e
by_id_found log e d m = cases (lookup e.id (index_log log).by_id) refl
  where
    cases :
        (r : Option CausalEvent)
        → lookup e.id (index_log log).by_id ≡ r
        → lookup e.id (index_log log).by_id ≡ some e
    cases none h = absurd (
        (by_id_missing log (record { by_id = []; emits_by_actor = [] }) e.id
            (unfold index_log in h)).1
          e m refl)
    cases (some f) h = let (n, i) = by_id-In log e.id f h in h ∙ ap some (d f e n m i)

-- The emits of an actor are events of the log.
pub emits-In :
    (log : List CausalEvent) (a : String) (w : CausalEvent)
    → In w (or_none (lookup a (index_log log).emits_by_actor))
    → In w log × (w.actor ≡ a) × (op_eq w.op emit ≡ true)
unfolding index_log lookup
emits-In log a w h =
    let start_ : RecordedIndex = record { by_id = []; emits_by_actor = [] } in
    let m =
      In-sort_events w _
        (rw (lookup-sort_values a (index_events log start_).emits_by_actor) at h) in
    elim (In-emits log start_ a w m) [ inl found ↦ found | inr none_ ↦ absurd none_ ]
