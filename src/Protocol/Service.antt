-- ===== src/Protocol/Service.antt =====
-- src/protocol.cpp, `enet_protocol_receive_incoming_commands`, `host_flush` and `host_service`. The socket
-- and the clock are parameters: what the calls of a run return, in order.
use enetcpp.Base.{
  Bool, List, Option, add32, false, if◌then◌else◌, leb, length, none, some, suc, true, zero, ℕ, ◌+◌,
}
use enetcpp.Time.{time_difference, time_greater_equal}
use enetcpp.Memory.{Allocator}
use enetcpp.Peer.{Address}
use enetcpp.Host.{Conn, World}
use enetcpp.Host.Bandwidth.{bandwidth_throttle_interval}
use enetcpp.Host.Recalculate.{host_bandwidth_throttle}
use enetcpp.Protocol.{Event}
use enetcpp.Protocol.Delivery.{dispatch_incoming_commands, cleared}
use enetcpp.Protocol.Incoming.{handle_incoming_commands}
use enetcpp.Protocol.Incoming.Header.{Readers}
use enetcpp.Protocol.Sending.Outbound.{Callbacks, Outbound}
use enetcpp.Protocol.Sending.Passes.{
  Sender, Ending, next, reported, failed, has_event, send_outgoing_commands,
}

-- `socket_receive`: a negative length, 0, or a datagram with its sender.
pub data Reception : Type 0 where
  broken empty : Reception
  datagram : Address → List ℕ → Reception

-- `socket_wait`: another value than 0, or the two conditions that it leaves.
pub data Waited : Type 0 where
  unable : Waited
  woken : Bool → Bool → Waited

-- What an interceptor makes of a datagram, by its return value: 1, -1 or another; it may change the
-- event.
pub data Interception : Type 0 where
  swallowed : Option Event → Interception
  refused : Interception
  passed_on : Option Event → Interception

-- The code that is not part of the library, by the number of the call.
pub record Environment : Type 0 where
  pub socket_send : List (Address × Outbound) → Address → Outbound → Option ℕ
  pub socket_receive : ℕ → Reception
  pub socket_wait : ℕ → Waited
  pub time_get : ℕ → ℕ
  pub intercept : Option (World → Option Event → List ℕ → Interception)
  pub stale : ℕ → List ℕ
  pub callbacks : Callbacks
  pub readers : Readers

-- The host, its peers and its counters, and how many calls have been made.
pub record Service : Type 0 where
  pub sender : Sender
  pub total_received_data : ℕ
  pub total_received_packets : ℕ
  pub receptions : ℕ
  pub waits : ℕ
  pub ticks : ℕ

-- A return of 0, 1 or -1, a fault, or the end of the fuel.
pub data Result : Type 0 where
  quiet event_ready error faulted exhausted : Result

abbrev pub with_world : Service → World → Option Event → Service
with_world s w e = record s { sender = record s.sender { world = w; event = e } }

-- A datagram of the socket, in the host.
abbrev pub with_datagram : Service → Address → List ℕ → Service
with_datagram s address bytes = record s {
  sender = record s.sender {
    world = record s.sender.world {
      host = record s.sender.world.host { received_address = address; received_data = bytes };
    };
  };
  total_received_data = add32 s.total_received_data (length bytes);
  total_received_packets = add32 s.total_received_packets 1;
  receptions = s.receptions + 1;
}

-- `host->serviceTime = time_get()`
abbrev pub tick : Environment → Service → Service
tick env s =
    let now = env.time_get s.ticks in
    record s {
      sender = record s.sender {
        world = record s.sender.world { host = record s.sender.world.host { service_time = now } };
      };
      ticks = s.ticks + 1;
    }

abbrev pub after_sending : Service → Option (Sender × Ending) → Service × Result
after_sending s none = (s, exhausted)
after_sending s (some (sender, ending)) = (
  record s { sender = sender },
  elim ending [ next ↦ quiet | reported ↦ event_ready | failed ↦ error ],
)

module _ (host_flush : Conn → Conn) (malloc : Allocator) (env : Environment) where
  unfoldable pub handle_datagram : Service → List ℕ → Service × Result
  unfolding handle_incoming_commands
  handle_datagram s bytes =
      elim (handle_incoming_commands host_flush malloc env.readers s.sender.world s.sender.event
        bytes (env.stale s.receptions)) [
          | none ↦ (s, faulted)
          | some r ↦
              (with_world s r.world r.event, if has_event r.event then event_ready else quiet)
        ]

  -- With whether the loop goes on.
  unfoldable pub intercept_datagram : Service → List ℕ → Service × Result × Bool
  unfolding handle_datagram
  intercept_datagram s bytes =
      let handled = handle_datagram s bytes in
      elim env.intercept [
        | none ↦ (handled.0, handled.1, elim handled.1 [ quiet ↦ true | _ ↦ false ])
        | some intercept ↦ elim (intercept s.sender.world s.sender.event bytes) [
          | swallowed e ↦
              if has_event e
              then (with_world s s.sender.world e, event_ready, false)
              else (with_world s s.sender.world e, quiet, true)
          | refused ↦ (s, error, false)
          | passed_on e ↦
              let after = handle_datagram (with_world s s.sender.world e) bytes in
              (after.0, after.1, elim after.1 [ quiet ↦ true | _ ↦ false ])
        ]
      ]

  -- `for (packets = 0; packets < 256; ++packets)`
  unfoldable pub receive_from : ℕ → Service → Service × Result
  unfolding intercept_datagram
  receive_from zero s = (s, quiet)
  receive_from (suc packets) s = elim (env.socket_receive s.receptions) [
    | broken ↦ (record s { receptions = s.receptions + 1 }, error)
    | empty ↦ (record s { receptions = s.receptions + 1 }, quiet)
    | datagram address bytes ↦
        let (s', result, more) = intercept_datagram (with_datagram s address bytes) bytes in
        elim more [ true ↦ receive_from packets s' | false ↦ (s', result) ]
  ]

  unfoldable pub receive_incoming_commands : Service → Service × Result
  unfolding receive_from
  receive_incoming_commands s = receive_from 256 s

  unfoldable pub send : Bool → ℕ → Service → Service × Result
  unfolding send_outgoing_commands
  send check_for_timeouts fuel s = after_sending s (
      send_outgoing_commands host_flush env.socket_send malloc env.callbacks check_for_timeouts fuel
        s.sender)

  -- `host_flush`, with no event and no check of the timeouts.
  unfoldable pub flush : ℕ → Service → Service
  unfolding send
  flush fuel s =
      (send false fuel
        (record (tick env s) { sender = record (tick env s).sender { event = none } })).0

  -- `enet_protocol_dispatch_incoming_commands`, if there is an event to fill in.
  unfoldable pub dispatch : Service → Service × Result
  unfolding dispatch_incoming_commands
  dispatch s = elim s.sender.event [
    | none ↦ (s, quiet)
    | some e ↦
        let (w, e', returned) = dispatch_incoming_commands s.sender.world e in
        (with_world s w (some e'), if returned then event_ready else quiet)
  ]

  -- A step after one that returned 0.
  abbrev pub and_then : Service × Result → (Service → Service × Result) → Service × Result
  and_then (s, quiet) f = f s
  and_then (s, r) f = (s, r)

  unfoldable pub throttle : Service → Service
  unfolding host_bandwidth_throttle
  throttle s =
      let h = s.sender.world.host in
      if leb bandwidth_throttle_interval (time_difference h.service_time h.bandwidth_throttle_epoch)
      then record (with_world s
          (host_bandwidth_throttle malloc s.sender.world (env.time_get s.ticks)) s.sender.event) {
            ticks = s.ticks + 1;
          }
      else s

  -- The body of the outer loop, up to the test of the time.
  unfoldable pub service_once : ℕ → Service → Service × Result
  unfolding throttle send receive_incoming_commands dispatch
  service_once fuel s =
      and_then
        (and_then (and_then (send true fuel (throttle s)) receive_incoming_commands)
          (send true fuel))
        dispatch

  abbrev pub is_over : Service → ℕ → Bool
  is_over s deadline = time_greater_equal s.sender.world.host.service_time deadline

  -- The inner loop: whether to go on with the outer one, or the result.
  unfoldable pub await : ℕ → ℕ → Service → Service × Option Result
  await zero deadline s = (s, some exhausted)
  await (suc fuel) deadline s =
      let now = tick env s in
      let waited = record now { waits = now.waits + 1 } in
      if is_over now deadline then (now, some quiet) else elim (env.socket_wait now.waits) [
        | unable ↦ (waited, some error)
        | woken to_receive interrupted ↦ elim interrupted [
          | true ↦ await fuel deadline waited
          | false ↦ (tick env waited, if to_receive then none else some quiet)
        ]
      ]

  -- The outer loop.
  unfoldable pub service_rounds : ℕ → ℕ → Service → Service × Result
  unfolding service_once await
  service_rounds zero deadline s = (s, exhausted)
  service_rounds (suc fuel) deadline s =
      let (s', result) = service_once fuel s in
      let (awaited, outcome) = await fuel deadline s' in
      elim result [
        | quiet ↦ elim (is_over s' deadline) [
          | true ↦ (s', quiet)
          | false ↦ elim outcome [
            | none ↦ service_rounds fuel deadline awaited
            | some r ↦ (awaited, r)
          ]
        ]
        | other ↦ (s', other)
      ]

  -- `host_service`; `timeout += host->serviceTime`.
  unfoldable pub host_service : ℕ → Service → ℕ → Service × Result
  unfolding service_rounds
  host_service fuel s timeout =
      let begun : Service = elim s.sender.event [
        | none ↦ s
        | some e ↦ with_world s s.sender.world (some (cleared e))
      ] in
      and_then (dispatch begun) (λ (s' : Service).
        service_rounds fuel (add32 timeout (tick env s').sender.world.host.service_time)
          (tick env s'))
