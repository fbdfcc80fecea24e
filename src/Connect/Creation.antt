-- ===== src/Connect/Creation.antt =====
-- What the creation of a connection leaves of the engine.
use thesis_share.Base.{
  ◌>>=◌, bind-some, ap, ◌∙◌, ℕ, ◌≡◌, refl, true, Option, none, some, List, [], ◌∷◌, if◌then◌else◌,
}
use thesis_share.Connect.{
  Network, ParsedUrl, Connection, Engine, connection_at, occupy_port, create_connection,
}

-- A network in which each host is found and each port is bound.
pub record Reaches (network : Network) : Type 0 where
  pub found : (host : List ℕ) → network.resolves host ≡ true
  pub bound : (port : ℕ) → network.binds port ≡ true

-- The engine with other ports.
pub record Alike (e e' : Engine) : Type 0 where
  pub connections : e'.connections ≡ e.connections
  pub request_queue : e'.request_queue ≡ e.request_queue
  pub count : e'.reading_streams_count ≡ e.reading_streams_count
  pub outputs : e'.output_stack ≡ e.output_stack
  pub still_open : e'.is_closed ≡ e.is_closed

module _ (network : Network) (w : Reaches network) (e : Engine) where
  occupy_port-Alike :
      (port : Option ℕ) × (e' : Engine) × (occupy_port network e ≡ some (port, e')) × Alike e e'
  unfolding occupy_port
  occupy_port-Alike = go e.free_ports_queue
    where
      kept : (ports : List ℕ) → Alike e (record e { free_ports_queue = ports })
      kept ports = record {
        connections = refl;
        request_queue = refl;
        count = refl;
        outputs = refl;
        still_open = refl;
      }

      go :
          (ports : List ℕ)
          → (port : Option ℕ) × (e' : Engine) × ((elim ports as (λ _. Option (Option ℕ × Engine)) [
            | [] ↦ if network.binds 0 then some (none, e) else none
            | port ∷ ports ↦
                if network.binds port
                then some (some port, record e { free_ports_queue = ports })
                else none
          ])
              ≡ some (port, e'))
            × Alike e e'
      go [] = (
        none,
        e,
        ap (λ b. if b then some (none, e) else none) (w.bound 0),
        record {
          connections = refl;
          request_queue = refl;
          count = refl;
          outputs = refl;
          still_open = refl;
        },
      )
      go (port ∷ ports) = (
        some port,
        record e { free_ports_queue = ports },
        ap (λ b. if b then some (some port, record e { free_ports_queue = ports }) else none)
            (w.bound port),
        kept ports,
      )

  -- A connection is made, without streams.
  pub create_connection-Alike :
      (url : ParsedUrl)
      → (c : Connection) × (e' : Engine) × (create_connection network url e ≡ some (c, e'))
        × Alike e e'
        × (c.stream_list ≡ [])
  unfolding create_connection connection_at
  create_connection-Alike url =
      let (port, e', ran, alike) = occupy_port-Alike in
      (
        record { hostname = url.hostname; stream_list = []; port_number = port },
        e',
        ap
              (λ b.
                if b
                then (do made ← occupy_port network e; some (connection_at url.hostname made))
                else none)
              (w.found url.hostname)
            ∙ bind-some _ ran refl,
        alike,
        refl,
      )
