-- ===== src/Connections/Connect/Retry.antt =====
-- A Connect of internal/control/handler.go that is sent again.
use midori_vpn_core.Prelude.{ℕ, ◌≡◌, false, [], ◌∷◌, ok}
use midori_vpn_core.Prelude.Equality.{text_eq}
use midori_vpn_core.Connections.{Reply, core_stats}
use midori_vpn_core.Connections.Connect
use midori_vpn_core.Connections.Connect.{Config, complete}
use midori_vpn_core.Connections.Connect.Outcomes

-- What a Connect that is sent again gives, against the first: nothing is changed, the core of one
-- server is asked for its statistics and nothing else, and the answer names the same peer with the
-- same address.
pub record Repeats (first second : Reply Config) (c : Config) : Type 0 where
  pub same_db : second.db ≡ first.db
  pub asked : ℕ
  pub calls : second.effects ≡ core_stats asked ∷ []
  pub again : Config
  pub answers : second.result ≡ ok again
  pub same_peer : again.peer_id ≡ c.peer_id
  pub same_ip : again.peer_ip ≡ c.peer_ip
  pub not_new : again.is_new ≡ false
