-- ===== src/Coroutine.antt =====
-- A coroutine that completes with an error code and a value, as a function on the state it works
-- on. `co_await` of another coroutine is `>>=`: an error code ends the caller with it.
use tntpp.Errc.{Result, ok, fail, abort}

abbrev pub Co {ℓ κ} : Type ℓ → Type κ → Type (ℓ ⊔ κ)
Co S A = S → Result A × S

-- What follows a completion.
abbrev pub continue {ℓ κ μ} :
    {S : Type ℓ} {A : Type κ} {B : Type μ} → Result A × S → (A → Co S B) → Result B × S
continue (ok a, s) f = f a s
continue (fail e, s) f = (fail e, s)
continue (abort, s) f = (abort, s)

infixl 5 ◌>>=◌
abbrev pub ◌>>=◌ {ℓ κ μ} : {S : Type ℓ} {A : Type κ} {B : Type μ} → Co S A → (A → Co S B) → Co S B
◌>>=◌ m f s = continue (m s) f

abbrev pub complete {ℓ κ} : {S : Type ℓ} {A : Type κ} → Result A → Co S A
complete r s = (r, s)
