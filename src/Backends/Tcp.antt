-- ===== src/Backends/Tcp.antt =====
-- backends/tcp.rs: one attempt to connect. The resolver, the connector, the timeout of tokio and the
-- clock are arguments.
pub mod Connecting
use simple_network_monitor.Prelude.{
  ℕ, String, Bool, Option, none, some, List, [], ◌∷◌, Result, ok, err, ◌>>=◌, ◌>>◌,
}
use simple_network_monitor.Domain.Clock.{Duration}
use simple_network_monitor.Domain.Validation.{validate_address, validate_duration}

pub record TcpRequest : Type 0 where
  pub address : String
  pub port : ℕ
  pub timeout : Duration

-- The transport, over the socket addresses `A`.
pub record TcpTransport (A : Type 0) : Type 0 where
  pub resolve : String → ℕ → Result String (List A)
  pub connect : A → Result String (Unit {0})

-- `map_err(…)?` on what comes out of the timeout.
abbrev pub timed : Option (Result String Duration) → Result String Duration
timed none = err "TCP check timed out (including DNS resolution)"
timed (some result) = result

-- One round of the loop: the first address that accepts ends it, and an error stays for the next.
abbrev pub attempt :
    Duration → (String → Result String Duration) → Result String (Unit {0}) → Result String Duration
attempt elapsed next (ok done) = ok elapsed
attempt elapsed next (err e) = next e

module _ {A : Type 0} where
  -- The loop over the addresses, with the error that stands when they are used up.
  unfoldable pub connect_first :
      TcpTransport A → Duration → String → List A → Result String Duration
  connect_first t elapsed error [] = err error
  connect_first t elapsed error (a ∷ addresses) =
      attempt elapsed (λ e. connect_first t elapsed e addresses) (t.connect a)

  -- What runs under the timeout.
  unfoldable pub resolve_and_connect :
      TcpTransport A → Duration → TcpRequest → Result String Duration
  unfolding connect_first
  resolve_and_connect t elapsed r = do
    addresses ← t.resolve r.address r.port
    connect_first t elapsed "TCP target resolved to no addresses" addresses

  -- `TcpConnectCheck::run`: `in_time` is what the timeout makes of a result, `none` once the duration
  -- has elapsed.
  unfoldable pub run :
      (String → Bool)
      → TcpTransport A
      → (Duration → Result String Duration → Option (Result String Duration))
      → Duration
      → TcpRequest
      → Result String Duration
  unfolding resolve_and_connect validate_address validate_duration
  run is_ip_literal t in_time elapsed r = do
    validate_address is_ip_literal r.address
    validate_duration r.timeout
    timed (in_time r.timeout (resolve_and_connect t elapsed r))
