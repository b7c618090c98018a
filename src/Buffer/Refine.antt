-- ===== src/Buffer/Refine.antt =====
-- include/tarantool_connector/detail/tntpp_mutable_buffer.h: histories of the receive buffer against
-- histories of a queue of bytes.
use tntpp.Common.{
  ℕ, ◌+◌, ◌^◌, ◌≤◌, ◌<◌, ◌≡◌, refl, sym, ap, ◌∙◌, inl, inr, Option, none, some, List, [], ◌∷◌, ◌++◌,
  arith, leb, Bool-cases, length, take, drop, length-append, length-drop, take-length, drop-length,
  ◌>>=◌,
}
use tntpp.Buffer.{MutableBuffer, FrozenBuffer, contents, frozen_bytes}
use tntpp.Buffer.State.{
  IsValid, unread, length-contents, Keeps, Keeps-refl, Keeps-trans, IsFrozen, frozen_bytes-Keeps,
}
use tntpp.Buffer.Transfer.{
  advance_reader_of_lem, advance_reader_of-none, consumed-IsValid, consumed-contents,
  consumed-Keeps, length-front, front-IsFrozen, clear-IsValid, contents-clear, default_length-clear,
  clear-Keeps,
}
use tntpp.Buffer.Run.{
  Op, receives, consumes, clears, step, run, step_queue, run_queue, incoming, receive-Received,
}

-- The frozen buffers handed out by a history: each shows what the queue gave.
abbrev pub Shows : MutableBuffer → List FrozenBuffer → List (List ℕ) → Type 0
Shows m [] [] = Unit
Shows m [] (o ∷ os) = ⊥
Shows m (f ∷ fs) [] = ⊥
Shows m (f ∷ fs) (o ∷ os) = IsFrozen m f × (frozen_bytes m f ≡ o) × Shows m fs os

pub Shows-Keeps :
    (m m' : MutableBuffer) (fs : List FrozenBuffer) (os : List (List ℕ))
    → Keeps m m'
    → Shows m fs os
    → Shows m' fs os
Shows-Keeps m m' [] [] k s = tt
Shows-Keeps m m' [] (o ∷ os) k s = absurd s
Shows-Keeps m m' (f ∷ fs) [] k s = absurd s
Shows-Keeps m m' (f ∷ fs) (o ∷ os) k (i, e, s) =
    let (i', e') = frozen_bytes-Keeps m m' f k i in (i', e' ∙ e, Shows-Keeps m m' fs os k s)

Shows-append :
    (m : MutableBuffer) (fs gs : List FrozenBuffer) (os ps : List (List ℕ))
    → Shows m fs os
    → Shows m gs ps
    → Shows m (fs ++ gs) (os ++ ps)
Shows-append m [] gs [] ps s t = t
Shows-append m [] gs (o ∷ os) ps s t = absurd s
Shows-append m (f ∷ fs) gs [] ps s t = absurd s
Shows-append m (f ∷ fs) gs (o ∷ os) ps (i, e, s) t = (i, e, Shows-append m fs gs os ps s t)

-- Where a step or a run of the buffer ends against that of the queue.
abbrev pub Agrees :
    MutableBuffer
    → Option (MutableBuffer × List FrozenBuffer)
    → Option (List ℕ × List (List ℕ))
    → Type 0
Agrees m none none = Unit
Agrees m none (some s) = ⊥
Agrees m (some r) none = ⊥
Agrees m (some (m', fs)) (some (q, os)) =
    IsValid m'
    × (m'.default_length ≡ m.default_length)
    × Keeps m m'
    × (contents m' ≡ q)
    × Shows m' fs os

split-take-drop :
    (n : ℕ) (q xs ys : List ℕ) → q ≡ xs ++ ys → length xs ≡ n → (take n q ≡ xs) × (drop n q ≡ ys)
split-take-drop n q xs ys e l = (rw (e, ← l) (take-length xs ys), rw (e, ← l) (drop-length xs ys))

consume-Agrees :
    (m : MutableBuffer) (n : ℕ)
    → IsValid m
    → Agrees m (step m (consumes n)) (step_queue (contents m) (consumes n))
unfolding step step_queue
consume-Agrees m n v = elim (Bool-cases (leb n (unread m))) [
  | inl e ↦
      let le : n ≤ unread m = ground arith in
      let (t, d) =
        split-take-drop n (contents m) _ _ (consumed-contents m n v le) (length-front m n v le) in
      rw (advance_reader_of_lem m n v le, length-contents m v, e)
        (
          consumed-IsValid m n v le,
          refl,
          consumed-Keeps m n,
          sym d,
          (front-IsFrozen m n v le, sym t, tt),
        )
  | inr e ↦ rw (advance_reader_of-none m n v (ground arith), length-contents m v, e) tt
]

step-Agrees :
    (m : MutableBuffer) (op : Op)
    → IsValid m
    → 0 < m.default_length
    → length (contents m) + incoming (op ∷ []) + m.default_length + m.default_length < 2 ^ 64
    → Agrees m (step m op) (step_queue (contents m) op)
unfolding step step_queue
step-Agrees m (receives bs) v d h =
    let (m', e, r) = receive-Received m bs v d (omega (arith, length-contents m v)) in
    rw e (r.valid, r.same_default, r.keeps, r.added, tt)
step-Agrees m (consumes n) v d h = consume-Agrees m n v
step-Agrees m clears v d h = (
  clear-IsValid m v (omega arith),
  default_length-clear m,
  clear-Keeps m v,
  contents-clear m v,
  tt,
)

incoming-cons : (op : Op) (ops : List Op) → incoming (op ∷ []) ≤ incoming (op ∷ ops)
incoming-cons (receives bs) ops = omega arith
incoming-cons (consumes n) ops = omega arith
incoming-cons clears ops = omega arith

incoming-step_queue :
    (q : List ℕ) (op : Op) (ops : List Op) {q' : List ℕ} {os : List (List ℕ)}
    → step_queue q op ≡ some (q', os)
    → length q' + incoming ops ≤ length q + incoming (op ∷ ops)
unfolding step_queue
incoming-step_queue q (receives bs) ops e = ground (arith, length-append q bs)
incoming-step_queue q (consumes n) ops e = ground (arith, length-drop n q)
incoming-step_queue q clears ops e = ground arith

-- After a step that agrees, a rest that agrees.
join-Agrees :
    (m m1 : MutableBuffer) (fs : List FrozenBuffer) (os : List (List ℕ))
    (x : Option (MutableBuffer × List FrozenBuffer)) (y : Option (List ℕ × List (List ℕ)))
    → m1.default_length ≡ m.default_length
    → Keeps m m1
    → Shows m1 fs os
    → Agrees m1 x y
    → Agrees m (x >>= λ p. some (p.0, fs ++ p.1)) (y >>= λ p. some (p.0, os ++ p.1))
join-Agrees m m1 fs os none none d k s a = tt
join-Agrees m m1 fs os none (some y) d k s a = absurd a
join-Agrees m m1 fs os (some x) none d k s a = absurd a
join-Agrees m m1 fs os (some (m2, gs)) (some (q, ps)) d k s (v2, d2, k2, c2, s2) = (
  v2,
  d2 ∙ d,
  Keeps-trans m m1 m2 k k2,
  c2,
  Shows-append m2 fs gs os ps (Shows-Keeps m1 m2 fs os k2 s) s2,
)

module _ (m : MutableBuffer) (ops : List Op) where
  abbrev rest : MutableBuffer × List FrozenBuffer → Option (MutableBuffer × List FrozenBuffer)
  rest (m1, fs) = run m1 ops >>= λ p. some (p.0, fs ++ p.1)

  abbrev rest_queue : List ℕ × List (List ℕ) → Option (List ℕ × List (List ℕ))
  rest_queue (q, os) = run_queue q ops >>= λ p. some (p.0, os ++ p.1)

  bind-Agrees :
      (x : Option (MutableBuffer × List FrozenBuffer)) (y : Option (List ℕ × List (List ℕ)))
      → Agrees m x y
      → ((m1 : MutableBuffer) (q : List ℕ) (os : List (List ℕ))
          → y ≡ some (q, os)
          → contents m1 ≡ q
          → IsValid m1
          → m1.default_length ≡ m.default_length
          → Agrees m1 (run m1 ops) (run_queue q ops))
      → Agrees m (x >>= rest) (y >>= rest_queue)
  bind-Agrees none none a ih = tt
  bind-Agrees none (some y) a ih = absurd a
  bind-Agrees (some x) none a ih = absurd a
  bind-Agrees (some (m1, fs)) (some (q, os)) (v, d, k, c, s) ih =
      join-Agrees m m1 fs os (run m1 ops) (run_queue q ops) d k s (ih m1 q os refl c v d)

-- The induction over a history.
run-Agrees :
    (m : MutableBuffer) (ops : List Op)
    → IsValid m
    → 0 < m.default_length
    → length (contents m) + incoming ops + m.default_length + m.default_length < 2 ^ 64
    → Agrees m (run m ops) (run_queue (contents m) ops)
unfolding run run_queue
run-Agrees m [] v d h = (v, refl, Keeps-refl m, refl, tt)
run-Agrees m (op ∷ ops) v d h =
    bind-Agrees m ops (step m op) (step_queue (contents m) op)
      (step-Agrees m op v d (omega (arith, incoming-cons op ops)))
      λ m1 q os e c v1 d1. rw (← c) (
        run-Agrees m1 ops v1 (omega arith)
          (omega (arith, incoming-step_queue (contents m) op ops e, ap length c)))

-- How a history ends for the buffer and for the queue.
abbrev pub Refines :
    Option (MutableBuffer × List FrozenBuffer) → Option (List ℕ × List (List ℕ)) → Type 0
Refines none none = Unit
Refines none (some s) = ⊥
Refines (some r) none = ⊥
Refines (some (m, fs)) (some (q, os)) = IsValid m × (contents m ≡ q) × Shows m fs os

Refines-of_Agrees :
    (m : MutableBuffer) (x : Option (MutableBuffer × List FrozenBuffer))
    (y : Option (List ℕ × List (List ℕ)))
    → Agrees m x y
    → Refines x y
Refines-of_Agrees m none none a = tt
Refines-of_Agrees m none (some y) a = a
Refines-of_Agrees m (some x) none a = a
Refines-of_Agrees m (some (m', fs)) (some (q, os)) (v, d, k, c, s) = (v, c, s)

-- From a valid buffer with a positive default length, a history of receives, consumes and clears
-- whose bytes, with those unread at the start and twice the default length, number less than
-- 2^64 behaves as on a plain queue of the unread bytes. The buffer fails an assertion exactly
-- when the queue runs short; otherwise the buffer ends valid, holding what the queue holds, and
-- every frozen buffer handed out on the way shows at the end the bytes that the queue gave.
pub run-Refines :
    (m : MutableBuffer) (ops : List Op)
    → IsValid m
    → 0 < m.default_length
    → length (contents m) + incoming ops + m.default_length + m.default_length < 2 ^ 64
    → Refines (run m ops) (run_queue (contents m) ops)
run-Refines m ops v d h =
    Refines-of_Agrees m (run m ops) (run_queue (contents m) ops) (run-Agrees m ops v d h)

kept_of_Agrees :
    (m m' : MutableBuffer) (fs : List FrozenBuffer) (y : Option (List ℕ × List (List ℕ)))
    (f : FrozenBuffer)
    → Agrees m (some (m', fs)) y
    → IsFrozen m f
    → frozen_bytes m' f ≡ frozen_bytes m f
kept_of_Agrees m m' fs none f a i = absurd a
kept_of_Agrees m m' fs (some (q, os)) f (v, d, k, c, s) i = (frozen_bytes-Keeps m m' f k i).1

-- A frozen buffer that shows written bytes when a history begins shows the same bytes when it
-- ends, whatever is received, consumed and cleared in between.
pub run-frozen_bytes :
    (m m' : MutableBuffer) (ops : List Op) (fs : List FrozenBuffer) (f : FrozenBuffer)
    → IsValid m
    → 0 < m.default_length
    → length (contents m) + incoming ops + m.default_length + m.default_length < 2 ^ 64
    → IsFrozen m f
    → run m ops ≡ some (m', fs)
    → frozen_bytes m' f ≡ frozen_bytes m f
run-frozen_bytes m m' ops fs f v d h i e =
    kept_of_Agrees m m' fs (run_queue (contents m) ops) f (rw e at (run-Agrees m ops v d h)) i
