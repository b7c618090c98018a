-- ===== src/Queue.antt =====
-- include/tarantool_connector/detail/tntpp_queue.h: the double buffer of requests to send.
-- A vector is the list of its elements; its capacity has no meaning for the contents.
use tntpp.Common.{
  ℕ, Bool, true, false, not, ◌&&◌, List, [], ◌∷◌, ◌++◌, ltb, ◌==◌, if◌then◌else◌, length, take,
}

-- `DBQueue`.
pub record DbQueue {ℓ} (A : Type ℓ) : Type ℓ where
  pub default_size : ℕ
  pub active : List A
  pub inactive : List A

module _ {ℓ} {A : Type ℓ} where
  unfoldable pub new_queue : ℕ → DbQueue A
  new_queue default_size = record { default_size = default_size; active = []; inactive = [] }

  unfoldable pub push : DbQueue A → A → DbQueue A
  push q a = record q { active = q.active ++ a ∷ [] }

  abbrev pub is_empty : List A → Bool
  is_empty [] = true
  is_empty (x ∷ xs) = false

  unfoldable pub is_ready : DbQueue A → Bool
  is_ready q = not (is_empty q.active)

  -- The vector cut to the default size, if that is not 0 and smaller.
  unfoldable pub shrink : ℕ → List A → List A
  shrink n xs = if not (n == 0) && ltb n (length xs) then take n xs else xs

  -- `m_active.clear()`.
  abbrev pub cleared : List A → List A
  cleared xs = []

  -- The new queue; its inactive vector is the result.
  unfoldable pub swap : DbQueue A → DbQueue A
  unfolding shrink
  swap q = record q { active = cleared (shrink q.default_size q.inactive); inactive = q.active }

  unfoldable pub clear : DbQueue A → DbQueue A
  unfolding shrink
  clear q = record q {
    active = cleared (shrink q.default_size q.active);
    inactive = cleared (shrink q.default_size q.inactive);
  }
