-- ===== src/Jsc/Finalizers/Safety.antt =====
-- backend-jsc/src/experimental/native_state.rs: no finalizer token is lost, taken twice or miscounted.
use rust_jsi.Base.{
  ℕ, zero, suc, ◌+◌, ◌≡◌, refl, ap, Bool, List, [], ◌∷◌, length, length-append, Option, none, some,
  arith,
}
use rust_jsi.Base.Slots.{get_elem?, none-some, some-injective}
use rust_jsi.Jsc.Generations.{count, count-append}
use rust_jsi.Jsc.Ledger.Threads.{without}
use rust_jsi.Jsc.Finalizers.{
  Head, linked, closed_sentinel, System, Access, announces, publishes, takes, closes, reclaims,
  settles, new, announce, publish, take, close, reclaim, step, run,
}

module _ {T : Type 0} where
  length-without :
      (l : List T) (i : ℕ) (x : T) → get_elem? l i ≡ some x → suc (length (without i l)) ≡ length l
  length-without [] i x h = absurd (none-some h)
  length-without (y ∷ l) zero x h = refl
  length-without (y ∷ l) (suc i) x h = ap suc (length-without l i x h)

  count-without :
      (p : T → Bool) (l : List T) (i : ℕ) (x : T)
      → get_elem? l i ≡ some x
      → count p (x ∷ without i l) ≡ count p l
  count-without p [] i x h = absurd (none-some h)
  count-without p (y ∷ l) zero x h = ground (arith, some-injective h)
  count-without p (y ∷ l) (suc i) x h = omega (arith, count-without p l i x h)

  abbrev pub tokens : Head T → List T
  tokens (linked l) = l
  tokens closed_sentinel = []

  -- Where the tokens are that are not settled.
  abbrev pub unsettled : System T → ℕ
  unsettled s = length s.announced + length (tokens s.head) + length s.detached + s.refused

  abbrev pub IsConserved : (T → Bool) → System T → Type 0
  IsConserved p s =
      count p s.created
      ≡ count p s.announced
        + count p (tokens s.head)
        + count p s.detached
        + count p s.reclaimed
        + count p s.discarded

  publish-counts :
      (p : T → Bool) (i : ℕ) (token : T) (h : Head T) (s : System T)
      → s.head ≡ h
      → get_elem? s.announced i ≡ some token
      → s.pending ≡ unsettled s
      → IsConserved p s
      → let r = publish i (some token) h s in (r.pending ≡ unsettled r) × IsConserved p r
  publish-counts p i token (linked l) s e at k c = (
    ground (arith, length-without s.announced i token at),
    ground (arith, count-without p s.announced i token at),
  )
  publish-counts p i token closed_sentinel s e at k c = (
    ground (arith, length-without s.announced i token at),
    ground (arith, count-without p s.announced i token at),
  )

  -- The system's counter and its tokens.
  pub record IsExact (s : System T) : Type 0 where
    pub counted : s.pending ≡ unsettled s
    pub conserved : (p : T → Bool) → IsConserved p s

  new-IsExact : IsExact (new {T = T})
  new-IsExact = record { counted = refl; conserved = λ p. refl }

  publish-IsExact :
      (i : ℕ) (o : Option T) (h : Head T) (s : System T)
      → s.head ≡ h
      → get_elem? s.announced i ≡ o
      → IsExact s
      → IsExact (publish i o h s)
  publish-IsExact i none h s e at b = b
  publish-IsExact i (some token) h s e at b = record {
    counted =
        (publish-counts (λ t. Bool.true) i token h s e at b.counted
          (b.conserved (λ t. Bool.true))).0;
    conserved = λ p. (publish-counts p i token h s e at b.counted (b.conserved p)).1;
  }

  take-IsExact : (h : Head T) (s : System T) → s.head ≡ h → IsExact s → IsExact (take h s)
  take-IsExact closed_sentinel s e b = b
  take-IsExact (linked l) s e b = record {
    counted = ground (arith, b.counted, length-append l s.detached);
    conserved = λ p. ground (arith, b.conserved p, count-append p l s.detached);
  }

  close-IsExact : (h : Head T) (s : System T) → s.head ≡ h → IsExact s → IsExact (close h s)
  close-IsExact closed_sentinel s e b = b
  close-IsExact (linked l) s e b = record {
    counted = ground (arith, b.counted, length-append l s.detached);
    conserved = λ p. ground (arith, b.conserved p, count-append p l s.detached);
  }

  reclaim-IsExact : (l : List T) (s : System T) → s.detached ≡ l → IsExact s → IsExact (reclaim l s)
  reclaim-IsExact [] s e b = b
  reclaim-IsExact (token ∷ l) s e b = record {
    counted = ground (arith, b.counted);
    conserved = λ p. ground (arith, b.conserved p);
  }

  announce-IsExact : (token : T) (s : System T) → IsExact s → IsExact (announce token s)
  announce-IsExact token s b = record {
    counted = ground (arith, b.counted);
    conserved = λ p. ground (arith, b.conserved p);
  }

  settle-IsExact : (s : System T) → IsExact s → IsExact (step settles s)
  unfolding step
  settle-IsExact s b = record {
    counted = ground (arith, b.counted);
    conserved = λ p. ground (arith, b.conserved p);
  }

  step-IsExact : (a : Access T) (s : System T) → IsExact s → IsExact (step a s)
  unfolding step
  step-IsExact (announces token) s b = announce-IsExact token s b
  step-IsExact (publishes i) s b = publish-IsExact i (get_elem? s.announced i) s.head s refl refl b
  step-IsExact takes s b = take-IsExact s.head s refl b
  step-IsExact closes s b = close-IsExact s.head s refl b
  step-IsExact reclaims s b = reclaim-IsExact s.detached s refl b
  step-IsExact settles s b = settle-IsExact s b

  run-IsExact : (l : List (Access T)) (s : System T) → IsExact s → IsExact (run l s)
  unfolding run
  run-IsExact [] s b = b
  run-IsExact (a ∷ l) s b = run-IsExact l (step a s) (step-IsExact a s b)

  step-closed :
      (a : Access T) (s : System T) → s.head ≡ closed_sentinel → (step a s).head ≡ closed_sentinel
  unfolding step
  step-closed a s e = ground arith

  run-closed :
      (l : List (Access T)) (s : System T)
      → s.head ≡ closed_sentinel
      → (run l s).head ≡ closed_sentinel
  unfolding run
  run-closed [] s e = e
  run-closed (a ∷ l) s e = run-closed l (step a s) (step-closed a s e)

  closes-closed : (s : System T) → (step closes s).head ≡ closed_sentinel
  unfolding step
  closes-closed s = ground arith

  -- In every order of the threads' accesses, the pending count is the number of tokens that are
  -- announced, linked, detached or refused and not settled, and every created token is in exactly
  -- one place, with its multiplicity. Once the queue is closed it stays so and links no token: the
  -- count is then of the tokens in the hands of threads, and each of the others was reclaimed by the
  -- runtime's thread or discarded by its producer.
  pub finalizers_settle :
      (before after : List (Access T))
      → let s : System T = run before new in
        let c : System T = run after (step closes s) in
        (s.pending ≡ unsettled s)
        × ((p : T → Bool) → IsConserved p s)
        × (c.head ≡ closed_sentinel)
        × (c.pending ≡ length c.announced + length c.detached + c.refused)
        × ((p : T → Bool)
            → count p c.created
              ≡ count p c.announced
                + count p c.detached
                + count p c.reclaimed
                + count p c.discarded)
  finalizers_settle before after =
      let s : System T = run before new in
      let c : System T = run after (step closes s) in
      let b : IsExact s = run-IsExact before new new-IsExact in
      let d : IsExact c = run-IsExact after (step closes s) (step-IsExact closes s b) in
      let e : c.head ≡ closed_sentinel = run-closed after (step closes s) (closes-closed s) in
      let empty : tokens c.head ≡ [] = ap tokens e in
      (
        b.counted,
        b.conserved,
        e,
        omega (arith, d.counted, ap length empty),
        λ p. omega (arith, d.conserved p, ap (count p) empty),
      )
