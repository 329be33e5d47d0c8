-- ===== src/Server/Config/Defaults.antt =====
-- What `setDefaults` (server.go) leaves behind.
use smtpx.Base.{◌<◌, [], Option, none, some, ◌≡◌, ◌↔◌, arith, Bytes, length}
use smtpx.Server.Config.{Server, set_defaults}

-- Filling in the defaults fails exactly if no host name is set and the host's name cannot be found
-- out. Otherwise every limit is positive and the address is not empty, limits of recipients and size
-- that were set are kept, and so is a host name that was set; without one the host's name is taken.
pub set_defaults_complete :
    (s : Server) (os : Option Bytes)
    → ((set_defaults s os ≡ none) ↔ ((s.hostname ≡ []) × (os ≡ none)))
      × ((t : Server)
          → set_defaults s os ≡ some t
          → (0 < t.max_size)
            × (0 < t.max_recipients)
            × (0 < t.max_unrecognized_commands)
            × (0 < t.max_clients)
            × (0 < length t.addr)
            × (0 < s.max_recipients → t.max_recipients ≡ s.max_recipients)
            × (0 < s.max_size → t.max_size ≡ s.max_size)
            × (0 < length s.hostname → t.hostname ≡ s.hostname)
            × (s.hostname ≡ [] → os ≡ some t.hostname))
unfolding set_defaults
set_defaults_complete s os = (((λ h. ground arith), (λ h. ground arith)), (λ t h. ground arith))
