-- ===== src/Prod/Recorded/Deliver.antt =====
-- What `TokioTx::try_send` of crates/lichtung-prod/src/mailbox.rs changes: one mailbox.
use lichtung.Prelude.{
  ℕ, zero, suc, List, [], ◌∷◌, ◌++◌, Option, none, some, ◌≡◌, ◌⊎◌, inl, inr, refl, arith, ap,
  get_elem?, Bool-cases,
}
use lichtung.Core.Event.{Envelope}
use lichtung.Prod.{Task, deliver, is_closed}
use lichtung.Prod.Run.{names}
use lichtung.Prod.Recorded.Claims.{all_taken}

module _ {A P : Type 0} where
  -- The task itself, or with one more message.
  abbrev pub Got : Envelope P → Task A P → Task A P → Type 0
  Got env t u = (u ≡ t) ⊎ (u ≡ record t { inbox = t.inbox ++ env ∷ [] })

  pub record Delivered (env : Envelope P) (tasks tasks' : List (Task A P)) : Type 0 where
    pub from :
        (j : ℕ) (u : Task A P)
        → get_elem? tasks' j ≡ some u
        → (t : Task A P) × (get_elem? tasks j ≡ some t) × Got env t u
    pub to :
        (j : ℕ) (t : Task A P)
        → get_elem? tasks j ≡ some t
        → (u : Task A P) × (get_elem? tasks' j ≡ some u) × Got env t u
    pub same_taken : (k : ℕ) → all_taken k tasks' ≡ all_taken k tasks
    pub same_names : names tasks' ≡ names tasks

  some_inj : (x y : Task A P) → some x ≡ some y → y ≡ x
  some_inj x y h = cc

  head-Delivered :
      (env : Envelope P) (t : Task A P) (tasks : List (Task A P))
      → Delivered env (t ∷ tasks) (record t { inbox = t.inbox ++ env ∷ [] } ∷ tasks)
  unfolding all_taken names
  head-Delivered env t tasks = record {
    from = from;
    to = to;
    same_taken = λ k. refl;
    same_names = refl;
  }
    where
      from :
          (j : ℕ) (u : Task A P)
          → get_elem? (record t { inbox = t.inbox ++ env ∷ [] } ∷ tasks) j ≡ some u
          → (x : Task A P) × (get_elem? (t ∷ tasks) j ≡ some x) × Got env x u
      from zero u h = (t, refl, inr (some_inj _ u h))
      from (suc j) u h = (u, h, inl refl)

      to :
          (j : ℕ) (x : Task A P)
          → get_elem? (t ∷ tasks) j ≡ some x
          → (u : Task A P) × (get_elem? (record t { inbox = t.inbox ++ env ∷ [] } ∷ tasks) j
              ≡ some u)
            × Got env x u
      to zero x h = rw (some_inj t x h) (_, refl, inr refl)
      to (suc j) x h = (x, h, inl refl)

  tail-Delivered :
      (env : Envelope P) (t : Task A P) (tasks tasks' : List (Task A P))
      → Delivered env tasks tasks'
      → Delivered env (t ∷ tasks) (t ∷ tasks')
  unfolding all_taken names
  tail-Delivered env t tasks tasks' d = record {
    from = from;
    to = to;
    same_taken = λ k. omega (arith, d.same_taken k);
    same_names = ap (λ ns. t.id ∷ ns) d.same_names;
  }
    where
      from :
          (j : ℕ) (u : Task A P)
          → get_elem? (t ∷ tasks') j ≡ some u
          → (x : Task A P) × (get_elem? (t ∷ tasks) j ≡ some x) × Got env x u
      from zero u h = (u, h, inl refl)
      from (suc j) u h = d.from j u h

      to :
          (j : ℕ) (x : Task A P)
          → get_elem? (t ∷ tasks) j ≡ some x
          → (u : Task A P) × (get_elem? (t ∷ tasks') j ≡ some u) × Got env x u
      to zero x h = (x, h, inl refl)
      to (suc j) x h = d.to j x h

  pub deliver-Delivered :
      (sink : ℕ) (env : Envelope P) (tasks tasks' : List (Task A P))
      → deliver sink env tasks ≡ some tasks'
      → Delivered env tasks tasks'
  unfolding deliver
  deliver-Delivered sink env [] tasks' h = absurd (cc)
  deliver-Delivered zero env (t ∷ tasks) tasks' h = elim (Bool-cases (is_closed t.phase)) [
    | inl closed ↦ absurd (none_ tasks' (rw closed at h))
    | inr opened ↦ moved _ tasks' (head-Delivered env t tasks) (rw opened at h)
  ]
    where
      none_ : (x : List (Task A P)) → none ≡ some x → ⊥
      none_ x h = cc

      moved :
          (x y : List (Task A P))
          → Delivered env (t ∷ tasks) x
          → some x ≡ some y
          → Delivered env (t ∷ tasks) y
      moved x y d h = rw (inj x y h) at d
        where
          inj : (x y : List (Task A P)) → some x ≡ some y → x ≡ y
          inj x y h = cc
  deliver-Delivered (suc sink) env (t ∷ tasks) tasks' h =
      behind (deliver sink env tasks) (λ x e. deliver-Delivered sink env tasks x e) h
    where
      behind :
          (r : Option (List (Task A P)))
          → ((x : List (Task A P)) → r ≡ some x → Delivered env tasks x)
          → (elim r [ none ↦ none | some x ↦ some (t ∷ x) ]) ≡ some tasks'
          → Delivered env (t ∷ tasks) tasks'
      behind none d h = absurd (cc)
      behind (some x) d h = rw (inj (t ∷ x) tasks' h) at (tail-Delivered env t tasks x (d x refl))
        where
          inj : (x y : List (Task A P)) → some x ≡ some y → x ≡ y
          inj x y h = cc
