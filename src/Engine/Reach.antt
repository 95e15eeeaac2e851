-- ===== src/Engine/Reach.antt =====
-- The search of `concurrent_pairs` in crates/lichtung-replay/src/engine.rs finds exactly what a chain
-- of edges leads to.
use lichtung.Prelude.{
  ℕ, zero, suc, List, [], ◌∷◌, ◌++◌, true, false, ◌+◌, ◌<◌, ◌≤◌, ◌≡◌, refl, ◌⊎◌, inl, inr, ◌↔◌,
  arith, In, ap, ◌∙◌, length, get_or, replicate, length-replicate, get_or-replicate,
}
use lichtung.Poset.{Edge}
use lichtung.Extension.{successors}
use lichtung.Extension.Degrees.{InRange, InRange-In, targets, get_or-successors}
use lichtung.Engine.{Search, visit, walk, reaches, reach_from}
use lichtung.Engine.Visit.{
  In-targets, marked, unseen, unseen-replicate, Visited, visit-Visited, AllLt,
}

-- One edge or more lead from `a` to `b`.
pub data Leads (edges : List Edge) (a : ℕ) : ℕ → Type 0 where
  edge : {b : ℕ} → In (a, b) edges → Leads edges a b
  further : {b c : ℕ} → Leads edges a b → In (b, c) edges → Leads edges a c

AllLt-of-In : (n : ℕ) (vs : List ℕ) → ((v : ℕ) → In v vs → v < n) → AllLt n vs
AllLt-of-In n [] h = tt
AllLt-of-In n (v ∷ vs) h = (h v (inl refl), AllLt-of-In n vs (λ w m. h w (inr m)))

pub stack_cases : (l : List ℕ) → (l ≡ []) ⊎ ((u : ℕ) × (rest : List ℕ) × (l ≡ u ∷ rest))
stack_cases [] = inl refl
stack_cases (u ∷ rest) = inr (u, rest, refl)

module _ (succ : List (List ℕ)) (fuel : ℕ) (s : Search) where
  pub walk-nil : s.stack ≡ [] → walk succ (suc fuel) s ≡ s
  unfolding walk
  walk-nil e = rw e

  pub walk-cons :
      (u : ℕ) (rest : List ℕ)
      → s.stack ≡ u ∷ rest
      → walk succ (suc fuel) s
        ≡ walk succ fuel (visit (get_or succ u []) (record s { stack = rest }))
  unfolding walk
  walk-cons u rest e = rw e

module _ (n : ℕ) (edges : List Edge) (range : InRange n edges) (a : ℕ) where
  abbrev pub succ : List (List ℕ)
  succ = successors edges (replicate n [])

  succ-targets : (j : ℕ) → get_or succ j [] ≡ targets j edges
  succ-targets j =
      get_or-successors edges (replicate n []) j (rw length-replicate range)
      ∙ ap (λ l. l ++ targets j edges) (get_or-replicate n j [])

  abbrev Known : Search → ℕ → Type 0
  Known s u = (u ≡ a) ⊎ (marked s u ≡ true)

  record Searching (s : Search) : Type 0 where
    size : length s.seen ≡ n
    sound : (v : ℕ) → marked s v ≡ true → Leads edges a v
    stacked : (u : ℕ) → In u s.stack → (u ≡ a) ⊎ Leads edges a u
    closed : (u : ℕ) → Known s u → In u s.stack ⊎ ((v : ℕ) → In (u, v) edges → marked s v ≡ true)

  -- A round takes `u` off the stack and looks at its targets.
  module _ (s : Search) (u : ℕ) (rest : List ℕ) (popped : s.stack ≡ u ∷ rest)
      (inv : Searching s) where
    abbrev s' : Search
    s' = record s { stack = rest }

    abbrev t : Search
    t = visit (targets u edges) s'

    done : Visited (targets u edges) s' t
    done = visit-Visited (targets u edges) s' (
        AllLt-of-In (length s.seen) (targets u edges)
          (λ v m. rw (inv.size) (InRange-In n edges u v range ((In-targets edges u v).0 m)).1))

    from_u : (v : ℕ) → In (u, v) edges → Leads edges a v
    from_u v m = go (inv.stacked u (rw popped (inl refl)))
      where
        go : (u ≡ a) ⊎ Leads edges a u → Leads edges a v
        go (inl e) = edge (rw (← e) m)
        go (inr l) = further l m

    round-Searching : Searching t
    round-Searching = record {
      size = done.size ∙ inv.size;
      sound = λ v h. sound' v (done.only v h);
      stacked = λ w m. stacked' w (done.pushed w m);
      closed = λ w k. closed' w k;
    }
      where
        sound' :
            (v : ℕ)
            → (marked s v ≡ true) ⊎ (In v (targets u edges) × In v t.stack)
            → Leads edges a v
        sound' v (inl h) = inv.sound v h
        sound' v (inr (m, _)) = from_u v ((In-targets edges u v).0 m)

        stacked' : (w : ℕ) → In w rest ⊎ In w (targets u edges) → (w ≡ a) ⊎ Leads edges a w
        stacked' w (inl m) = inv.stacked w (rw popped (inr m))
        stacked' w (inr m) = inr (from_u w ((In-targets edges u w).0 m))

        old :
            (w : ℕ)
            → (w ≡ u) ⊎ In w rest ⊎ ((v : ℕ) → In (w, v) edges → marked s v ≡ true)
            → In w t.stack ⊎ ((v : ℕ) → In (w, v) edges → marked t v ≡ true)
        old w (inl e) = inr (λ v m. done.marks v ((In-targets edges u v).1 (rw e at m)))
        old w (inr (inl m)) = inl (done.holds w m)
        old w (inr (inr h)) = inr (λ v m. done.keeps v (h v m))

        split :
            (w : ℕ)
            → In w (u ∷ rest) ⊎ ((v : ℕ) → In (w, v) edges → marked s v ≡ true)
            → (w ≡ u) ⊎ In w rest ⊎ ((v : ℕ) → In (w, v) edges → marked s v ≡ true)
        split w (inl (inl e)) = inl e
        split w (inl (inr m)) = inr (inl m)
        split w (inr h) = inr (inr h)

        known_old :
            (w : ℕ) → Known s w → In w t.stack ⊎ ((v : ℕ) → In (w, v) edges → marked t v ≡ true)
        known_old w k = old w (split w (rw popped at (inv.closed w k)))

        known_new :
            (w : ℕ)
            → (marked s w ≡ true) ⊎ (In w (targets u edges) × In w t.stack)
            → In w t.stack ⊎ ((v : ℕ) → In (w, v) edges → marked t v ≡ true)
        known_new w (inl h) = known_old w (inr h)
        known_new w (inr (_, m)) = inl m

        closed' :
            (w : ℕ) → Known t w → In w t.stack ⊎ ((v : ℕ) → In (w, v) edges → marked t v ≡ true)
        closed' w (inl e) = known_old w (inl e)
        closed' w (inr h) = known_new w (done.only w h)

  walk_ends :
      (fuel : ℕ) (s : Search)
      → Searching s
      → unseen s.seen + length s.stack ≤ fuel
      → Searching (walk succ fuel s) × ((walk succ fuel s).stack ≡ [])
  walk_ends zero s inv h = elim (stack_cases s.stack) [
    | inl e ↦ unfold walk in (inv, e)
    | inr (u, rest, e) ↦ absurd (omega (arith, ap (λ (l : List ℕ). length l) e))
  ]
  walk_ends (suc fuel) s inv h = elim (stack_cases s.stack) [
    | inl e ↦ rw (walk-nil succ fuel s e) (inv, e)
    | inr (u, rest, e) ↦
        rw (walk-cons succ fuel s u rest e, succ-targets)
          (walk_ends fuel _ (round-Searching s u rest e inv)
            (omega (arith, (done s u rest e inv).work, ap (λ (l : List ℕ). length l) e)))
  ]

  abbrev pub first : Search
  first = record { seen = replicate n false; stack = a ∷ [] }

  first-Searching : Searching first
  first-Searching = record {
    size = length-replicate n false;
    sound = λ v h. absurd (cc (h, get_or-replicate n v false));
    stacked = λ u m. only_a u m;
    closed = λ u k. known_first u k;
  }
    where
      only_a : (u : ℕ) → In u (a ∷ []) → (u ≡ a) ⊎ Leads edges a u
      only_a u (inl e) = inl e
      only_a u (inr m) = elim m [ ]

      known_first :
          (u : ℕ)
          → Known first u
          → In u (a ∷ []) ⊎ ((v : ℕ) → In (u, v) edges → marked first v ≡ true)
      known_first u (inl e) = inl (inl e)
      known_first u (inr h) = absurd (cc (h, get_or-replicate n u false))

  pub walk_empties : (walk succ (suc n) first).stack ≡ []
  walk_empties = (walk_ends (suc n) first first-Searching (omega (arith, unseen-replicate n))).1

  no_stack :
      (s : Search) (u v : ℕ)
      → s.stack ≡ []
      → In u s.stack ⊎ ((w : ℕ) → In (u, w) edges → marked s w ≡ true)
      → In (u, v) edges
      → marked s v ≡ true
  no_stack s u v empty (inl m) e = absurd (rw empty at m)
  no_stack s u v empty (inr h) e = h v e

  complete :
      (s : Search) → Searching s → s.stack ≡ [] → {b : ℕ} → Leads edges a b → marked s b ≡ true
  complete s inv empty (edge {b = v} m) = no_stack s a v empty (inv.closed a (inl refl)) m
  complete s inv empty (further {b = u} {c = v} l m) =
      no_stack s u v empty (inv.closed u (inr (complete s inv empty l))) m

  -- `reach[a][b]` is true exactly when a chain of edges leads from `a` to `b`.
  pub reaches_iff : (b : ℕ) → (reaches n succ a b ≡ true) ↔ Leads edges a b
  unfolding reaches reach_from
  reaches_iff b =
      let (inv, empty) =
        walk_ends (suc n) first first-Searching (omega (arith, unseen-replicate n)) in
      (inv.sound b, λ l. complete (walk succ (suc n) first) inv empty l)
