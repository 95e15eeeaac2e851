-- ===== src/Extension/Greedy.antt =====
-- The canonical order of a set of events, on the events themselves: each time the least of those that
-- wait for nothing.
use lichtung.Prelude.{
  Ordering, compare, List, [], ◌∷◌, ◌++◌, some, ◌<◌, ◌≡◌, ◌↔◌, ◌⊎◌, refl, arith, ap₂, sym, subst,
  inl, inr, In,
}
use lichtung.Prelude.Keys.{compare_str, compare-swap}
use lichtung.Log.{CausalEvent, emit, recv}
use lichtung.Poset.{msg_or_empty}
use lichtung.Extension.{and_then}
use mathlib.Core.List.{append_assoc, append-nil}

-- By Lamport number, then actor, then sequence number.
unfoldable pub compare_event : CausalEvent → CausalEvent → Ordering
compare_event x y =
    and_then (compare x.lamport y.lamport)
      (and_then (compare_str x.actor y.actor) (compare x.seq y.seq))

module _ (log : List CausalEvent) where
  -- The next event of the same actor, and the receipt of an emitted message.
  unfoldable pub Follows : CausalEvent → CausalEvent → Type 0
  Follows x y =
      In x log
      × In y log
      × (((x.actor ≡ y.actor)
            × (x.seq < y.seq)
            × ((z : CausalEvent)
                → In z log
                → z.actor ≡ x.actor
                → (x.seq < z.seq) × (z.seq < y.seq)
                → ⊥))
          ⊎ ((x.op ≡ emit) × (y.op ≡ recv) × (x.msg_id ≡ some (msg_or_empty y))))

  abbrev pub Ready : List CausalEvent → CausalEvent → Type 0
  Ready before z = (y : CausalEvent) → Follows y z → In y before

  pub record IsNext (before : List CausalEvent) (x : CausalEvent) : Type 0 where
    pub recorded : In x log
    pub fresh : ¬ In x before
    pub ready : Ready before x
    pub least :
        (z : CausalEvent)
        → In z log
        → ¬ In z before
        → Ready before z
        → (z ≡ x) ⊎ (compare_event x z ≡ Ordering.lt)

  unfoldable pub IsGreedy : List CausalEvent → List CausalEvent → Type 0
  IsGreedy before [] = Unit
  IsGreedy before (x ∷ order) = IsNext before x × IsGreedy (before ++ x ∷ []) order

abbrev pub Covers : List CausalEvent → List CausalEvent → Type 0
Covers log order = (z : CausalEvent) → In z log → In z order

never_both :
    (x y : CausalEvent) → compare_event x y ≡ Ordering.lt → compare_event y x ≡ Ordering.lt → ⊥
unfolding compare_event
never_both x y h k = ground (arith, compare-swap x.actor y.actor)

module _ (log log' : List CausalEvent) (same : (x : CausalEvent) → In x log ↔ In x log') where
  Follows-same : (x y : CausalEvent) → Follows log x y → Follows log' x y
  unfolding Follows
  Follows-same x y (m, k, inl (a, q, between)) =
      ((same x).0 m, (same y).0 k, inl (a, q, λ z i b. between z ((same z).1 i) b))
  Follows-same x y (m, k, inr e) = ((same x).0 m, (same y).0 k, inr e)

module _ (log log' : List CausalEvent) (same : (x : CausalEvent) → In x log ↔ In x log') where
  back : (x : CausalEvent) → In x log' ↔ In x log
  back x = ((same x).1, (same x).0)

  next_same :
      (before : List CausalEvent) (x y : CausalEvent)
      → IsNext log before x
      → IsNext log' before y
      → x ≡ y
  next_same before x y a b =
      cases
        (a.least y ((same y).1 b.recorded) b.fresh
          (λ z f. b.ready z (Follows-same log log' same z y f)))
        (b.least x ((same x).0 a.recorded) a.fresh
          (λ z f. a.ready z (Follows-same log' log back z x f)))
    where
      cases :
          (y ≡ x) ⊎ (compare_event x y ≡ Ordering.lt)
          → (x ≡ y) ⊎ (compare_event y x ≡ Ordering.lt)
          → x ≡ y
      cases (inl e) k = sym e
      cases (inr h) (inl e) = e
      cases (inr h) (inr k) = absurd (never_both x y h k)

  -- Two logs of the same events have the same canonical order.
  pub IsGreedy-unique :
      (before order order' : List CausalEvent)
      → IsGreedy log before order
      → IsGreedy log' before order'
      → Covers log (before ++ order)
      → Covers log' (before ++ order')
      → order ≡ order'
  unfolding IsGreedy
  IsGreedy-unique before [] [] g g' c c' = refl
  IsGreedy-unique before [] (y ∷ order') g (n, g') c c' =
      absurd (n.fresh (rw append-nil at (c y ((same y).1 n.recorded))))
  IsGreedy-unique before (x ∷ order) [] (n, g) g' c c' =
      absurd (n.fresh (rw append-nil at (c' x ((same x).0 n.recorded))))
  IsGreedy-unique before (x ∷ order) (y ∷ order') (n, g) (n', g') c c' =
      let x_eq_y = next_same before x y n n' in
      ap₂ (λ (z : CausalEvent) (l : List CausalEvent). z ∷ l) x_eq_y
        (IsGreedy-unique (before ++ x ∷ []) order order' g
          (subst (λ z. IsGreedy log' (before ++ z ∷ []) order') (sym x_eq_y) g') (rw append_assoc c)
          (subst (λ z. Covers log' ((before ++ z ∷ []) ++ order')) (sym x_eq_y)
            (rw append_assoc c')))
