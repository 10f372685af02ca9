-- ===== src/Discovery/Tests.antt =====
-- Discovery at concrete inputs.
use cmd_chat.Prelude.{nat_eq, bytes_eq, codes, Option, none, some, List, [], ◌∷◌}
use cmd_chat.Discovery.{Announcement, Packet, magic}

abbrev host : Announcement
host = record { id = codes "cc-A"; name = codes "a"; port = 80; fingerprint = []; endpoint = [] }

abbrev answer : Announcement → Packet
answer a = record { magic_text = magic; kind = codes "found"; announcement = some a; id = [] }

-- Noise, another host, the host, and the host once more from elsewhere.
abbrev datagrams : List (Option Packet)
datagrams =
    none
    ∷ some (answer (record host { id = codes "cc-B" }))
    ∷ some (answer host)
    ∷ some (answer (record host { endpoint = codes "elsewhere" }))
    ∷ []
