-- ===== src/Config/Chosen.antt =====
-- include/tarantool_connector/tntpp_config.h: the options after a chain of setters.
use tntpp.Common.{
  ℕ, ◌≡◌, ◌≢◌, ◌↔◌, refl, sym, ap, ◌∙◌, Bool, false, Option, none, some, List, [], ◌∷◌, ◌>>=◌,
  arith, inl, inr, Option-cases,
}
use tntpp.Config.{
  Credentials, Config, Setting, host, port, credentials, logger, no_delay, send_queue_capacity,
  receive_buffer_size, is_empty, set_host, set_port, set_credentials, set_logger, set_no_delay,
  set_send_queue_capacity, set_receive_buffer_size, set, set_all,
}

-- What a setter chooses for each option, if it is a setter of that option.
abbrev pub host_in : Setting → Option (List ℕ)
host_in (host h) = some h
host_in _ = none

abbrev pub port_in : Setting → Option ℕ
port_in (port p) = some p
port_in _ = none

abbrev pub credentials_in : Setting → Option (Option Credentials)
credentials_in (credentials username password) =
    some (some (record { username = username; password = password }))
credentials_in _ = none

abbrev pub logger_in : Setting → Option (Option ℕ)
logger_in (logger l) = some l
logger_in _ = none

abbrev pub nodelay_in : Setting → Option Bool
nodelay_in (no_delay enable) = some enable
nodelay_in _ = none

abbrev pub send_queue_capacity_in : Setting → Option ℕ
send_queue_capacity_in (send_queue_capacity n) = some n
send_queue_capacity_in _ = none

abbrev pub receive_buffer_size_in : Setting → Option ℕ
receive_buffer_size_in (receive_buffer_size n) = some n
receive_buffer_size_in _ = none

abbrev pub or_given {ℓ} : {A : Type ℓ} → Option A → A → A
or_given none d = d
or_given (some a) d = a

-- What the last setter of an option chooses for it, if there is one.
abbrev pub last_in {ℓ} : {A : Type ℓ} → (Setting → Option A) → List Setting → Option A
last_in pick [] = none
last_in pick (x ∷ xs) = elim (last_in pick xs) [ none ↦ pick x | some a ↦ some a ]

-- The same, or else the value given.
abbrev pub latest {ℓ} : {A : Type ℓ} → (Setting → Option A) → A → List Setting → A
latest pick d xs = or_given (last_in pick xs) d

latest-cons {ℓ} :
    {A : Type ℓ} (pick : Setting → Option A) (d : A) (x : Setting) (xs : List Setting)
    → latest pick (or_given (pick x) d) xs ≡ latest pick d (x ∷ xs)
latest-cons pick d x xs = elim (Option-cases (last_in pick xs)) [
  | inl e ↦ rw e refl
  | inr (a, e) ↦ rw e refl
]

-- Every option as its last setter chose it.
abbrev pub chosen : Config → List Setting → Config
chosen c xs = record {
  host = latest host_in c.host xs;
  port = latest port_in c.port xs;
  credentials = latest credentials_in c.credentials xs;
  logger = latest logger_in c.logger xs;
  nodelay = latest nodelay_in c.nodelay xs;
  send_queue_capacity = latest send_queue_capacity_in c.send_queue_capacity xs;
  receive_buffer_size = latest receive_buffer_size_in c.receive_buffer_size xs;
}

-- The options after one setter.
abbrev after : Config → Setting → Config
after c x = record {
  host = or_given (host_in x) c.host;
  port = or_given (port_in x) c.port;
  credentials = or_given (credentials_in x) c.credentials;
  logger = or_given (logger_in x) c.logger;
  nodelay = or_given (nodelay_in x) c.nodelay;
  send_queue_capacity = or_given (send_queue_capacity_in x) c.send_queue_capacity;
  receive_buffer_size = or_given (receive_buffer_size_in x) c.receive_buffer_size;
}

chosen-after :
    (c : Config) (x : Setting) (xs : List Setting) → chosen (after c x) xs ≡ chosen c (x ∷ xs)
chosen-after c x xs = λ i. record {
  host = latest-cons host_in c.host x xs i;
  port = latest-cons port_in c.port x xs i;
  credentials = latest-cons credentials_in c.credentials x xs i;
  logger = latest-cons logger_in c.logger x xs i;
  nodelay = latest-cons nodelay_in c.nodelay x xs i;
  send_queue_capacity = latest-cons send_queue_capacity_in c.send_queue_capacity x xs i;
  receive_buffer_size = latest-cons receive_buffer_size_in c.receive_buffer_size x xs i;
}

-- A setter of credentials gets a name and a password that are not empty.
abbrev pub HasNames : Setting → Type 0
HasNames (credentials username password) = (username ≢ []) × (password ≢ [])
HasNames _ = Unit

abbrev pub AllNamed : List Setting → Type 0
AllNamed [] = Unit
AllNamed (x ∷ xs) = HasNames x × AllNamed xs

full : (xs : List ℕ) → xs ≢ [] → is_empty xs ≡ false
full [] ne = absurd (ne refl)
full (x ∷ xs) ne = refl

set-after : (c : Config) (x : Setting) → HasNames x → set c x ≡ some (after c x)
unfolding set set_host set_port set_credentials set_logger set_no_delay set_send_queue_capacity
    set_receive_buffer_size
set-after c (credentials username password) (n, m) = rw (full username n, full password m) refl
set-after c (host h) u = refl
set-after c (port p) u = refl
set-after c (logger l) u = refl
set-after c (no_delay enable) u = refl
set-after c (send_queue_capacity n) u = refl
set-after c (receive_buffer_size n) u = refl

set-HasNames : (c c' : Config) (x : Setting) → set c x ≡ some c' → HasNames x
unfolding set set_credentials
set-HasNames c c' (credentials [] password) e = absurd (ground arith)
set-HasNames c c' (credentials (b ∷ username) []) e = absurd (ground arith)
set-HasNames c c' (credentials (b ∷ username) (k ∷ password)) e = ((λ q. cc), (λ q. cc))
set-HasNames c c' (host h) e = tt
set-HasNames c c' (port p) e = tt
set-HasNames c c' (logger l) e = tt
set-HasNames c c' (no_delay enable) e = tt
set-HasNames c c' (send_queue_capacity n) e = tt
set-HasNames c c' (receive_buffer_size n) e = tt

set_all-chosen : (c : Config) (xs : List Setting) → AllNamed xs → set_all c xs ≡ some (chosen c xs)
unfolding set_all
set_all-chosen c [] u = refl
set_all-chosen c (x ∷ xs) (n, u) =
    ap (λ o. o >>= λ d. set_all d xs) (set-after c x n)
    ∙ set_all-chosen (after c x) xs u
    ∙ ap some (chosen-after c x xs)

set_all-AllNamed :
    (c : Config) (xs : List Setting) (c' : Config) → set_all c xs ≡ some c' → AllNamed xs
unfolding set_all
set_all-AllNamed c [] c' e = tt
set_all-AllNamed c (x ∷ xs) c' e = elim (Option-cases (set c x)) [
  | inl q ↦ absurd (ground arith)
  | inr (d, q) ↦ (
    set-HasNames c d x q,
    set_all-AllNamed d xs c' (sym (ap (λ o. o >>= λ k. set_all k xs) q) ∙ e),
  )
]

-- A chain of setters gives options, rather than to fail an assertion, exactly if each setter of
-- credentials in it gets a name and a password that are not empty. Each of the seven options then is
-- what the last setter of that option in the chain chose, or else what it was before.
pub set_all_iff :
    (c : Config) (xs : List Setting) (c' : Config)
    → (set_all c xs ≡ some c') ↔ (AllNamed xs × (c' ≡ chosen c xs))
set_all_iff c xs c' = (
  (λ e. let u = set_all-AllNamed c xs c' e in (u, ground (arith, set_all-chosen c xs u))),
  (λ p. rw p.1 (set_all-chosen c xs p.0)),
)
