-- ===== src/Runtime/Queue.antt =====
-- `crossbeam_queue::ArrayQueue`, which the mailboxes of runtime/src store payloads in. It is not
-- part of the repository: its operations are parameters, and its documented behaviour is stated by
-- `items`, the payloads from the oldest to the newest. Each operation is one indivisible step.
use rust_jsi.Base.{◌⊎◌, inl, inr, ◌≤◌}
use rust_jsi.Base.{
  ℕ, ◌<◌, ◌≡◌, refl, Bool, if◌then◌else◌, ltb, List, [], ◌∷◌, ◌++◌, length, null, Option, none,
  some, Result, ok, err, arith,
}

abbrev pub head? : {T : Type 0} → List T → Option T
head? [] = none
head? (x ∷ xs) = some x

abbrev pub tail : {T : Type 0} → List T → List T
tail [] = []
tail (x ∷ xs) = xs

pub record ArrayQueue (T : Type 0) : Type 1 where
  pub Q : Type 0
  pub new : ℕ → Q
  pub capacity : Q → ℕ
  pub push : Q → T → Q × Result (Unit {0}) T
  pub pop : Q → Q × Option T
  pub len : Q → ℕ
  pub is_empty : Q → Bool
  pub items : Q → List T
  pub items-new : (n : ℕ) → items (new n) ≡ []
  pub capacity-new : (n : ℕ) → 0 < n → capacity (new n) ≡ n
  pub items-push :
      (q : Q) (x : T)
      → items (push q x).0
        ≡ (if ltb (length (items q)) (capacity q) then items q ++ x ∷ [] else items q)
  pub result-push :
      (q : Q) (x : T)
      → (push q x).1 ≡ (if ltb (length (items q)) (capacity q) then ok tt else err x)
  pub capacity-push : (q : Q) (x : T) → capacity (push q x).0 ≡ capacity q
  pub items-pop : (q : Q) → items (pop q).0 ≡ tail (items q)
  pub result-pop : (q : Q) → (pop q).1 ≡ head? (items q)
  pub capacity-pop : (q : Q) → capacity (pop q).0 ≡ capacity q
  pub len-items : (q : Q) → len q ≡ length (items q)
  pub is_empty-items : (q : Q) → is_empty q ≡ null (items q)

-- A queue that keeps its capacity beside the list of its payloads meets the description.
pub record ListQueue (T : Type 0) : Type 0 where
  pub bound : ℕ
  pub stored : List T

module _ {T : Type 0} where
  abbrev pub list_push : ListQueue T → T → ListQueue T × Result (Unit {0}) T
  list_push q x =
      if ltb (length q.stored) q.bound
      then (record q { stored = q.stored ++ x ∷ [] }, ok tt)
      else (q, err x)

  pub items-list_push :
      (q : ListQueue T) (x : T)
      → (list_push q x).0.stored
        ≡ (if ltb (length q.stored) q.bound then q.stored ++ x ∷ [] else q.stored)
  items-list_push q x = ground arith

  pub result-list_push :
      (q : ListQueue T) (x : T)
      → (list_push q x).1 ≡ (if ltb (length q.stored) q.bound then ok tt else err x)
  result-list_push q x = ground arith

  pub bound-list_push : (q : ListQueue T) (x : T) → (list_push q x).0.bound ≡ q.bound
  bound-list_push q x = ground arith

abbrev pub list_queue : (T : Type 0) → ArrayQueue T
list_queue T = record {
  Q = ListQueue T;
  new = λ n. record { bound = n; stored = [] };
  capacity = λ q. q.bound;
  push = list_push;
  pop = λ q. (record q { stored = tail q.stored }, head? q.stored);
  len = λ q. length q.stored;
  is_empty = λ q. null q.stored;
  items = λ q. q.stored;
  items-new = λ n. refl;
  capacity-new = λ n h. refl;
  items-push = items-list_push;
  result-push = result-list_push;
  capacity-push = bound-list_push;
  items-pop = λ q. refl;
  result-pop = λ q. refl;
  capacity-pop = λ q. refl;
  len-items = λ q. refl;
  is_empty-items = λ q. refl;
}

-- A push keeps the payload at the end, or gives it back.
pub push-cases :
    {T : Type 0} (A : ArrayQueue T) (q : A.Q) (x : T)
    → ((length (A.items q) < A.capacity q)
        × ((A.push q x).1 ≡ ok tt)
        × (A.items (A.push q x).0 ≡ A.items q ++ x ∷ []))
      ⊎ ((A.capacity q ≤ length (A.items q))
          × ((A.push q x).1 ≡ err x)
          × (A.items (A.push q x).0 ≡ A.items q))
push-cases A q x = ground (arith, A.items-push q x, A.result-push q x)

List-cases : {T : Type 0} (l : List T) → (l ≡ []) ⊎ ((x : T) × (xs : List T) × (l ≡ x ∷ xs))
List-cases [] = inl refl
List-cases (x ∷ xs) = inr (x, xs, refl)

-- A pop takes the oldest payload, if there is one.
pub pop-cases :
    {T : Type 0} (A : ArrayQueue T) (q : A.Q)
    → ((A.items q ≡ []) × (A.items (A.pop q).0 ≡ []) × ((A.pop q).1 ≡ none))
      ⊎ ((x : T) × (A.items q ≡ x ∷ A.items (A.pop q).0) × ((A.pop q).1 ≡ some x))
pop-cases A q = elim (List-cases (A.items q)) [
  | inl e ↦ inl (ground (arith, A.items-pop q, A.result-pop q))
  | inr (x, xs, e) ↦ inr (
    x,
    ground (arith, A.items-pop q, A.result-pop q),
    ground (arith, A.items-pop q, A.result-pop q),
  )
]
