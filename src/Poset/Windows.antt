-- ===== src/Poset/Windows.antt =====
-- The windows of a list along which `seq` grows are its consecutive pairs.
use lichtung.Prelude.{ℕ, List, [], ◌∷◌, ◌<◌, ◌≡◌, refl, inl, inr, ◌↔◌, arith, In, ap}
use lichtung.Log.{CausalEvent}
use lichtung.Poset.{seq_at}
use lichtung.Poset.Sort.{Strict, StrictFrom, window_edges, windows}

module _ (events : List CausalEvent) where
  abbrev seq : ℕ → ℕ
  seq = seq_at events

  -- `x` comes before `y` in the list, with nothing in between.
  abbrev pub Consecutive : List ℕ → ℕ → ℕ → Type 0
  Consecutive s x y =
      In x s × In y s × (seq x < seq y) × ((k : ℕ) → In k s → ¬ ((seq x < seq k) × (seq k < seq y)))

  pub StrictFrom-lt : (a : ℕ) (s : List ℕ) (y : ℕ) → StrictFrom events a s → In y s → seq a < seq y
  StrictFrom-lt a [] y h m = elim m [ ]
  StrictFrom-lt a (b ∷ s) y h (inl e) = rw e h.0
  StrictFrom-lt a (b ∷ s) y h (inr m) = omega (arith, h.0, StrictFrom-lt b s y h.1 m)

  -- Members of such a list are told apart by `seq`.
  pub StrictFrom-inj :
      (a : ℕ) (s : List ℕ) (x y : ℕ)
      → StrictFrom events a s
      → In x (a ∷ s)
      → In y (a ∷ s)
      → seq x ≡ seq y
      → x ≡ y
  StrictFrom-inj a s x y h (inl e) (inl f) q = cc
  StrictFrom-inj a s x y h (inl e) (inr n) q =
      absurd (omega (arith, ap seq e, StrictFrom-lt a s y h n))
  StrictFrom-inj a s x y h (inr m) (inl f) q =
      absurd (omega (arith, ap seq f, StrictFrom-lt a s x h m))
  StrictFrom-inj a [] x y h (inr m) (inr n) q = elim m [ ]
  StrictFrom-inj a (b ∷ s) x y h (inr m) (inr n) q = StrictFrom-inj b s x y h.1 m n q

  window-Consecutive :
      (a : ℕ) (s : List ℕ) (x y : ℕ)
      → StrictFrom events a s
      → In (x, y) (window_edges events a s)
      → Consecutive (a ∷ s) x y
  window-Consecutive a [] x y h m = elim m [ ]
  window-Consecutive a (b ∷ s) x y h (inl e) =
      let x-a : x ≡ a = ap (λ (p : ℕ × ℕ). p.0) e in
      let y-b : y ≡ b = ap (λ (p : ℕ × ℕ). p.1) e in
      (
        inl x-a,
        inr (inl y-b),
        omega (arith, h.0, ap seq x-a, ap seq y-b),
        λ k m between. first_between a b s x y k h x-a y-b m between,
      )
    where
      first_between :
          (a' b' : ℕ) (s' : List ℕ) (x' y' k : ℕ)
          → StrictFrom events a' (b' ∷ s')
          → x' ≡ a'
          → y' ≡ b'
          → In k (a' ∷ b' ∷ s')
          → (seq x' < seq k) × (seq k < seq y')
          → ⊥
      first_between a' b' s' x' y' k h' p q (inl e') b = omega (arith, ap seq p, ap seq e', b.0)
      first_between a' b' s' x' y' k h' p q (inr (inl e')) b =
          omega (arith, ap seq q, ap seq e', b.1)
      first_between a' b' s' x' y' k h' p q (inr (inr m')) b =
          omega (arith, ap seq q, StrictFrom-lt b' s' k h'.1 m', b.1)
  window-Consecutive a (b ∷ s) x y h (inr m) =
      let c = window-Consecutive b s x y h.1 m in
      (inr c.0, inr c.1, c.2, λ k n between. later_between k n between c)
    where
      later_between :
          (k : ℕ)
          → In k (a ∷ b ∷ s)
          → (seq x < seq k) × (seq k < seq y)
          → Consecutive (b ∷ s) x y
          → ⊥
      later_between k (inl e) between c =
          omega (arith, ap seq e, StrictFrom-lt a (b ∷ s) x h c.0, between.0)
      later_between k (inr n) between c = c.3 k n between

  Consecutive-window :
      (a : ℕ) (s : List ℕ) (x y : ℕ)
      → StrictFrom events a s
      → In x (a ∷ s)
      → In y (a ∷ s)
      → seq x < seq y
      → ((k : ℕ) → In k (a ∷ s) → ¬ ((seq x < seq k) × (seq k < seq y)))
      → In (x, y) (window_edges events a s)
  Consecutive-window a s x y h (inl e) (inl f) lt gap = absurd (omega (arith, ap seq e, ap seq f))
  Consecutive-window a s x y h (inr m) (inl f) lt gap =
      absurd (omega (arith, ap seq f, StrictFrom-lt a s x h m))
  Consecutive-window a [] x y h p (inr m) lt gap = elim m [ ]
  Consecutive-window a (b ∷ s) x y h (inl e) (inr (inl f)) lt gap = inl (cc)
  Consecutive-window a (b ∷ s) x y h (inl e) (inr (inr n)) lt gap =
      absurd (gap b (inr (inl refl)) (omega (arith, ap seq e, h.0), StrictFrom-lt b s y h.1 n))
  Consecutive-window a (b ∷ s) x y h (inr m) (inr n) lt gap =
      inr (Consecutive-window b s x y h.1 m n lt (λ k o. gap k (inr o)))

  pub windows_iff :
      (s : List ℕ) (x y : ℕ) → Strict events s → In (x, y) (windows events s) ↔ Consecutive s x y
  windows_iff [] x y h = (λ m. elim m [ ], λ c. elim c.0 [ ])
  windows_iff (a ∷ s) x y h =
      (window-Consecutive a s x y h, λ c. Consecutive-window a s x y h c.0 c.1 c.2 c.3)
