-- ===== src/Extension/Degrees.antt =====
-- The tables of `linearize` in crates/lichtung-replay/src/extension.rs, against the edges that they
-- are made from.
use lichtung.Prelude.{
  ℕ, List, [], ◌∷◌, ◌++◌, ◌+◌, ◌<◌, ◌≤◌, ◌≡◌, refl, inl, inr, arith, ◌==◌, ◌&&◌, length, get_or,
  set, length-set, get_or-set_self, get_or-set_ne, if◌then◌else◌, In, ℕ_discrete, ap, dec_lt,
}
use lichtung.Prelude.Counts.{count, count-append, one_if}
use lichtung.Poset.{Edge}
use lichtung.Extension.{successors, in_degrees}
use mathlib.Core.List.{append_assoc, append-nil}

abbrev pub InRange : ℕ → List Edge → Type 0
InRange n [] = Unit
InRange n ((a, b) ∷ edges) = (a < n) × (b < n) × InRange n edges

-- The targets of the edges from `i`.
unfoldable pub targets : ℕ → List Edge → List ℕ
targets i [] = []
targets i ((a, b) ∷ edges) = if a == i then b ∷ targets i edges else targets i edges

-- How many edges lead to `j` from an event that is not in the order yet.
unfoldable pub blocked : List Edge → List ℕ → ℕ → ℕ
blocked [] order j = 0
blocked ((a, b) ∷ edges) order j = one_if ((b == j) && (count a order == 0)) + blocked edges order j

pub get_or-successors :
    (edges : List Edge) (succ : List (List ℕ)) (i : ℕ)
    → InRange (length succ) edges
    → get_or (successors edges succ) i [] ≡ get_or succ i [] ++ targets i edges
unfolding successors targets
get_or-successors [] succ i r = rw append-nil
get_or-successors ((a, b) ∷ edges) succ i r =
    let l = get_or succ a [] ++ b ∷ [] in
    let ih = get_or-successors edges (set succ a l) i (rw (length-set succ a l) r.2) in
    elim (ℕ_discrete a i) [
      | yes e ↦ ground (
        arith,
        ih,
        get_or-set_self succ a l [] r.0,
        append_assoc (get_or succ a []) (b ∷ []) (targets i edges),
      )
      | no e ↦ ground (arith, ih, get_or-set_ne succ a i l [] e)
    ]

pub get_or-in_degrees :
    (edges : List Edge) (indeg : List ℕ) (j : ℕ)
    → InRange (length indeg) edges
    → get_or (in_degrees edges indeg) j 0 ≡ get_or indeg j 0 + blocked edges [] j
unfolding in_degrees blocked count
get_or-in_degrees [] indeg j r = omega arith
get_or-in_degrees ((a, b) ∷ edges) indeg j r =
    let d = get_or indeg b 0 + 1 in
    let ih = get_or-in_degrees edges (set indeg b d) j (rw (length-set indeg b d) r.2) in
    elim (ℕ_discrete b j) [
      | yes e ↦ ground (arith, ih, get_or-set_self indeg b d 0 r.1)
      | no e ↦ ground (arith, ih, get_or-set_ne indeg b j d 0 e)
    ]

-- One more event in the order frees the targets of its edges.
pub blocked-append :
    (edges : List Edge) (order : List ℕ) (i j : ℕ)
    → count i order ≡ 0
    → blocked edges order j ≡ blocked edges (order ++ i ∷ []) j + count j (targets i edges)
unfolding blocked targets count
blocked-append [] order i j h = omega arith
blocked-append ((a, b) ∷ edges) order i j h =
    ground (arith, blocked-append edges order i j h, count-append a order (i ∷ []))

pub blocked-eq-zero :
    (edges : List Edge) (order : List ℕ) (j : ℕ)
    → ((a : ℕ) → In (a, j) edges → 0 < count a order)
    → blocked edges order j ≡ 0
unfolding blocked
blocked-eq-zero [] order j h = refl
blocked-eq-zero ((a, b) ∷ edges) order j h =
    let ih = blocked-eq-zero edges order j (λ x m. h x (inr m)) in
    elim (ℕ_discrete b j) [
      | yes e ↦ ground (arith, ih, h a (inl (ap (λ (x : ℕ). (a, x)) (sym_eq e))))
      | no e ↦ ground (arith, ih)
    ]
  where
    sym_eq : b ≡ j → j ≡ b
    sym_eq e = omega arith

pub zero-blocked :
    (edges : List Edge) (order : List ℕ) (a j : ℕ)
    → blocked edges order j ≡ 0
    → In (a, j) edges
    → 0 < count a order
unfolding blocked
zero-blocked [] order a j h m = elim m [ ]
zero-blocked ((c, b) ∷ edges) order a j h (inl e) =
    let x : a ≡ c = ap (λ (p : ℕ × ℕ). p.0) e in
    let y : j ≡ b = ap (λ (p : ℕ × ℕ). p.1) e in rw x (ground arith)
zero-blocked ((c, b) ∷ edges) order a j h (inr m) = zero-blocked edges order a j (omega arith) m

-- What is blocked is blocked by an edge.
pub blocked-pos :
    (edges : List Edge) (order : List ℕ) (j : ℕ)
    → 0 < blocked edges order j
    → (a : ℕ) × In (a, j) edges × (count a order ≡ 0)
unfolding blocked
blocked-pos [] order j h = absurd (omega arith)
blocked-pos ((c, b) ∷ edges) order j h = elim (dec_lt 0 (blocked edges order j)) [
  | yes p ↦ let (a, m, z) = blocked-pos edges order j p in (a, inr m, z)
  | no p ↦ (c, inl (here (ground arith)), ground arith)
]
  where
    here : j ≡ b → ◌≡◌ {A = Edge} (c, j) (c, b)
    here e = ap (λ (x : ℕ). (c, x)) e

pub InRange-In :
    (n : ℕ) (edges : List Edge) (a b : ℕ) → InRange n edges → In (a, b) edges → (a < n) × (b < n)
InRange-In n [] a b r m = elim m [ ]
InRange-In n ((c, d) ∷ edges) a b r (inl e) =
    let x : a ≡ c = ap (λ (p : ℕ × ℕ). p.0) e in
    let y : b ≡ d = ap (λ (p : ℕ × ℕ). p.1) e in rw (x, y) (r.0, r.1)
InRange-In n ((c, d) ∷ edges) a b r (inr m) = InRange-In n edges a b r.2 m

pub In-InRange :
    (n : ℕ) (edges : List Edge)
    → ((a b : ℕ) → In (a, b) edges → (a < n) × (b < n))
    → InRange n edges
In-InRange n [] h = tt
In-InRange n ((a, b) ∷ edges) h =
    let here = h a b (inl refl) in (here.0, here.1, In-InRange n edges (λ c d m. h c d (inr m)))

pub blocked-beyond :
    (n : ℕ) (edges : List Edge) (order : List ℕ) (j : ℕ)
    → InRange n edges
    → n ≤ j
    → blocked edges order j ≡ 0
blocked-beyond n edges order j r le =
    blocked-eq-zero edges order j
      (λ a m. let p = InRange-In n edges a j r m in absurd (omega arith))
