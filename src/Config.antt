-- ===== src/Config.antt =====
-- include/tarantool_connector/tntpp_config.h: the options of a connector. A text is the list of its
-- bytes, a pointer to a logger its number.
pub mod Chosen
mod Tests
use tntpp.Common.{
  ℕ, Bool, false, not, ◌&&◌, Option, none, some, List, [], ◌∷◌, if◌then◌else◌, ◌>>=◌,
}

pub record Credentials : Type 0 where
  pub username : List ℕ
  pub password : List ℕ

pub record Config : Type 0 where
  pub host : List ℕ
  pub port : ℕ
  pub credentials : Option Credentials
  pub logger : Option ℕ
  pub nodelay : Bool
  pub send_queue_capacity : ℕ
  pub receive_buffer_size : ℕ

-- "127.0.0.1" and the default values.
unfoldable pub default_config : Config
default_config = record {
  host = 49 ∷ 50 ∷ 55 ∷ 46 ∷ 48 ∷ 46 ∷ 48 ∷ 46 ∷ 49 ∷ [];
  port = 3301;
  credentials = none;
  logger = none;
  nodelay = false;
  send_queue_capacity = 32;
  receive_buffer_size = 16384;
}

abbrev pub is_empty : List ℕ → Bool
is_empty [] = Bool.true
is_empty (x ∷ xs) = false

-- The setters. A 16-bit port and 64-bit sizes come as such.
unfoldable pub set_host : Config → List ℕ → Config
set_host c h = record c { host = h }

unfoldable pub set_port : Config → ℕ → Config
set_port c p = record c { port = p }

-- `none` is a failed assertion: the name and the password must not be empty.
unfoldable pub set_credentials : Config → List ℕ → List ℕ → Option Config
set_credentials c username password =
    if not (is_empty username) && not (is_empty password)
    then some
        (record c { credentials = some (record { username = username; password = password }) })
    else none

unfoldable pub set_logger : Config → Option ℕ → Config
set_logger c l = record c { logger = l }

unfoldable pub set_no_delay : Config → Bool → Config
set_no_delay c enable = record c { nodelay = enable }

unfoldable pub set_send_queue_capacity : Config → ℕ → Config
set_send_queue_capacity c n = record c { send_queue_capacity = n }

unfoldable pub set_receive_buffer_size : Config → ℕ → Config
set_receive_buffer_size c n = record c { receive_buffer_size = n }

-- A call of a setter, and a chain of them.
pub data Setting : Type 0 where
  host : List ℕ → Setting
  port : ℕ → Setting
  credentials : List ℕ → List ℕ → Setting
  logger : Option ℕ → Setting
  no_delay : Bool → Setting
  send_queue_capacity receive_buffer_size : ℕ → Setting

unfoldable pub set : Config → Setting → Option Config
unfolding set_host set_port set_credentials set_logger set_no_delay set_send_queue_capacity
    set_receive_buffer_size
set c (host h) = some (set_host c h)
set c (port p) = some (set_port c p)
set c (credentials username password) = set_credentials c username password
set c (logger l) = some (set_logger c l)
set c (no_delay enable) = some (set_no_delay c enable)
set c (send_queue_capacity n) = some (set_send_queue_capacity c n)
set c (receive_buffer_size n) = some (set_receive_buffer_size c n)

unfoldable pub set_all : Config → List Setting → Option Config
unfolding set
set_all c [] = some c
set_all c (x ∷ xs) = set c x >>= λ c'. set_all c' xs
