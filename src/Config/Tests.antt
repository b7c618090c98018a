-- ===== src/Config/Tests.antt =====
-- Options on a small chain of setters.
use tntpp.Common.{◌≡◌, ◌↔◌, true, some, List, [], ◌∷◌}
use tntpp.Config.{
  Config, Setting, host, port, logger, no_delay, send_queue_capacity, receive_buffer_size,
  credentials, default_config, set_all,
}
use tntpp.Config.Chosen.{AllNamed, chosen, set_all_iff}

abbrev settings : List Setting
settings =
    credentials (97 ∷ []) (98 ∷ [])
    ∷ receive_buffer_size 512
    ∷ port 3302
    ∷ host (49 ∷ [])
    ∷ logger (some 1)
    ∷ no_delay true
    ∷ send_queue_capacity 8
    ∷ credentials (103 ∷ []) (112 ∷ [])
    ∷ []

abbrev local : Config
unfolding default_config
local = default_config

abbrev remote : Config
unfolding local
remote = record {
  host = 49 ∷ [];
  port = 3302;
  credentials = some (record { username = 103 ∷ []; password = 112 ∷ [] });
  logger = some 1;
  nodelay = true;
  send_queue_capacity = 8;
  receive_buffer_size = 512;
}

set_all_iff_example :
    (set_all local settings ≡ some remote) ↔ (AllNamed settings × (remote ≡ chosen local settings))
set_all_iff_example = set_all_iff local settings remote
