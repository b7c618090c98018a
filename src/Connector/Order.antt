-- ===== src/Connector/Order.antt =====
-- include/tarantool_connector/tarantool_connector.hpp: the order of the map of requests, an
-- `unordered_map`, does not matter but for the order of the calls of a reset.
pub mod Alike
use mathlib.Core.List.{Permᴰ}
use mathlib.Core.List.Permᴰ
use tntpp.Common.{
  ℕ, ◌+◌, ◌%◌, ◌^◌, ◌≡◌, refl, sym, ap, subst, ◌∙◌, Bool, true, false, Option, none, some, List, [],
  ◌∷◌, ◌++◌, arith, Bool-cases, Option-cases, inl, inr, ◌==◌, if◌then◌else◌,
}
use tntpp.Errc.{Result, ok, fail, broken_pipe}
use tntpp.Framing.{IprotoFrame}
use tntpp.Connector.{
  State, connected, connecting, is_connected, Internal, Handler, handler, empty, Requests,
  Completion, find, insert, remove, generate_id, send_request, register, on_message, reset, call,
}
use tntpp.Connector.Asks.{Ask, asks, answers, breaks, ends, serve, serve_all}
use tntpp.Connector.Live.{AllLive, called, IsServing, Calm, reset-calls, reset-serve_all}

-- No id is registered twice.
abbrev pub Distinct : Requests → Type 0
Distinct [] = Unit
Distinct (x ∷ rs) = (find x.0 rs ≡ none) × Distinct rs

-- Two maps of the same entries, in whatever order, find the same.
abbrev pub FindsSame : Requests → Requests → Type 0
FindsSame rs rs' = Distinct rs' × ((id : ℕ) → find id rs ≡ find id rs')

find-swap :
    (j k : ℕ) (h g : Handler) (rs : Requests) (id : ℕ)
    → find j ((k, g) ∷ rs) ≡ none
    → find id ((j, h) ∷ (k, g) ∷ rs) ≡ find id ((k, g) ∷ (j, h) ∷ rs)
find-swap j k h g rs id n = ground arith

FindsSame-cons :
    (x : ℕ × Handler) (rs rs' : Requests)
    → Distinct (x ∷ rs)
    → FindsSame rs rs'
    → FindsSame (x ∷ rs) (x ∷ rs')
FindsSame-cons (j, h) rs rs' (n, d) (d', same) =
    ((sym (same j) ∙ n, d'), λ id. ap (λ o. if j == id then some h else o) (same id))

FindsSame-swap :
    (x y : ℕ × Handler) (rs : Requests)
    → Distinct (x ∷ y ∷ rs)
    → FindsSame (x ∷ y ∷ rs) (y ∷ x ∷ rs)
FindsSame-swap (j, h) (k, g) rs (n, (m, d)) =
    ((ground arith, (ground arith, d)), λ id. find-swap j k h g rs id n)

pub find-Perm : {rs rs' : Requests} → Permᴰ rs rs' → Distinct rs → FindsSame rs rs'
find-Perm Permᴰ.nil d = (tt, λ id. refl)
find-Perm (Permᴰ.cons {a = x} {l₁ = rs} {l₂ = rs'} e p) d =
    subst (λ z. FindsSame (x ∷ rs) (z ∷ rs')) e (FindsSame-cons x rs rs' d (find-Perm p d.1))
find-Perm (Permᴰ.swap {a = a} {b = b} {a' = a'} {b' = b'} {l = rs} e e') d =
    subst (λ z. FindsSame (a ∷ b ∷ rs) (a' ∷ z ∷ rs)) e
      (subst (λ z. FindsSame (a ∷ b ∷ rs) (z ∷ a ∷ rs)) e' (FindsSame-swap a b rs d))
find-Perm (Permᴰ.trans p q) d =
    let (d1, f) = find-Perm p d in let (d2, g) = find-Perm q d1 in (d2, λ id. f id ∙ g id)

-- Taking out a request.
find-remove-none : (i j : ℕ) (rs : Requests) → find i rs ≡ none → find i (remove j rs) ≡ none
unfolding remove
find-remove-none i j [] n = refl
find-remove-none i j ((k, h) ∷ rs) n = ground (arith, find-remove-none i j rs)

pub Distinct-remove : (id : ℕ) (rs : Requests) → Distinct rs → Distinct (remove id rs)
unfolding remove
Distinct-remove id [] d = tt
Distinct-remove id ((j, h) ∷ rs) (n, d) = elim (Bool-cases (j == id)) [
  | inl e ↦ rw e d
  | inr e ↦ rw e (find-remove-none j id rs n, Distinct-remove id rs d)
]

remove-cons :
    (id : ℕ) (x : ℕ × Handler) (rs rs' : Requests)
    → Permᴰ rs rs'
    → Permᴰ (remove id rs) (remove id rs')
    → Permᴰ (remove id (x ∷ rs)) (remove id (x ∷ rs'))
unfolding remove
remove-cons id (j, h) rs rs' p q = elim (Bool-cases (j == id)) [
  | inl e ↦ rw e p
  | inr e ↦ rw e (Permᴰ.cons refl q)
]

remove-swap :
    (id : ℕ) (x y : ℕ × Handler) (rs : Requests)
    → Distinct (x ∷ y ∷ rs)
    → Permᴰ (remove id (x ∷ y ∷ rs)) (remove id (y ∷ x ∷ rs))
unfolding remove
remove-swap id (j, h) (k, g) rs (n, (m, d)) = elim (Bool-cases (j == id)) [
  | inl e ↦ elim (Bool-cases (k == id)) [
    | inl e' ↦ absurd (ground arith)
    | inr e' ↦ rw (e, e') (Permᴰ.refl ((k, g) ∷ rs))
  ]
  | inr e ↦ elim (Bool-cases (k == id)) [
    | inl e' ↦ rw (e, e') (Permᴰ.refl ((j, h) ∷ rs))
    | inr e' ↦ rw (e, e') (Permᴰ.swap refl refl)
  ]
]

pub remove-Perm :
    {rs rs' : Requests} (id : ℕ) → Permᴰ rs rs' → Distinct rs → Permᴰ (remove id rs) (remove id rs')
remove-Perm id Permᴰ.nil d = Permᴰ.refl (remove id [])
remove-Perm id (Permᴰ.cons {a = x} {l₁ = rs} {l₂ = rs'} e p) d =
    subst (λ z. Permᴰ (remove id (x ∷ rs)) (remove id (z ∷ rs'))) e
      (remove-cons id x rs rs' p (remove-Perm id p d.1))
remove-Perm id (Permᴰ.swap {a = a} {b = b} {a' = a'} {b' = b'} {l = rs} e e') d =
    subst (λ z. Permᴰ (remove id (a ∷ b ∷ rs)) (remove id (a' ∷ z ∷ rs))) e
      (subst (λ z. Permᴰ (remove id (a ∷ b ∷ rs)) (remove id (z ∷ a ∷ rs))) e'
        (remove-swap id a b rs d))
remove-Perm id (Permᴰ.trans p q) d =
    Permᴰ.trans (remove-Perm id p d) (remove-Perm id q (find-Perm p d).0)

-- The calls of a reset.
called-cons :
    (x : ℕ × Handler) (rs rs' : Requests) (r : Result IprotoFrame)
    → Permᴰ (called rs r) (called rs' r)
    → Permᴰ (called (x ∷ rs) r) (called (x ∷ rs') r)
called-cons (j, handler h) rs rs' r p = Permᴰ.cons refl p
called-cons (j, empty) rs rs' r p = p

called-swap :
    (x y : ℕ × Handler) (rs : Requests) (r : Result IprotoFrame)
    → Permᴰ (called (x ∷ y ∷ rs) r) (called (y ∷ x ∷ rs) r)
called-swap (j, handler h) (k, handler g) rs r = Permᴰ.swap refl refl
called-swap (j, handler h) (k, empty) rs r = Permᴰ.refl _
called-swap (j, empty) (k, handler g) rs r = Permᴰ.refl _
called-swap (j, empty) (k, empty) rs r = Permᴰ.refl _

pub called-Perm :
    {rs rs' : Requests} (r : Result IprotoFrame) → Permᴰ rs rs' → Permᴰ (called rs r) (called rs' r)
called-Perm r Permᴰ.nil = Permᴰ.nil
called-Perm r (Permᴰ.cons {a = x} {l₁ = rs} {l₂ = rs'} e p) =
    subst (λ z. Permᴰ (called (x ∷ rs) r) (called (z ∷ rs') r)) e
      (called-cons x rs rs' r (called-Perm r p))
called-Perm r (Permᴰ.swap {a = a} {b = b} {a' = a'} {b' = b'} {l = rs} e e') =
    subst (λ z. Permᴰ (called (a ∷ b ∷ rs) r) (called (a' ∷ z ∷ rs) r)) e
      (subst (λ z. Permᴰ (called (a ∷ b ∷ rs) r) (called (z ∷ a ∷ rs) r)) e' (called-swap a b rs r))
called-Perm r (Permᴰ.trans p q) = Permᴰ.trans (called-Perm r p) (called-Perm r q)
